-- ===== src/Wallets/Balances.antt =====
-- When a debit returns, what it leaves in every balance, and that a debit and a credit let no balance
-- fall below zero.
use ryda.Base.{
  ℕ, ◌==◌, ◌≡◌, ℤ, pos, ◌+ℤ◌, ◌-ℤ◌, ◌≤ℤ◌, Option, some, arith, if◌then◌else◌, Option-cases, inl,
  inr, lookup, save, lookup-save, key-lookup, after, result, false, ok, List, +ℤ_parts, -ℤ_parts,
}
use ryda.Wallets.{credit, debit, over_maximum}
use ryda.Wallets.Entities.{Wallet, wallet_keyed, Category, Bank, is_topup}
use ryda.Wallets.Records.{balance_at}
use ryda.Settings.{Settings}

-- No balance is below zero.
pub record IsSolvent (wallets : List Wallet) : Type 0 where
  pub nonneg : (id : ℕ) → pos 0 ≤ℤ balance_at id wallets

pub save-IsSolvent :
    (w : Wallet) (balance : ℤ) (wallets : List Wallet)
    → IsSolvent wallets
    → pos 0 ≤ℤ balance
    → IsSolvent (save (record w { balance = balance }) wallets)
save-IsSolvent w balance wallets h p = record {
  nonneg =
      λ id. ground (arith, h.nonneg id, lookup-save id (record w { balance = balance }) wallets);
}

-- A wallet that exists, is not frozen and holds the amount is debited by exactly that amount, and no
-- other balance changes.
pub debit_lem :
    (id : ℕ) (amount : ℤ) (c : Category) (r : Option ℕ) (b : Bank) {w : Wallet}
    → lookup id b.wallets ≡ some w
    → pos 1 ≤ℤ amount
    → w.is_frozen ≡ false
    → amount ≤ℤ w.balance
    → let (answer, b') = debit id amount c r b in
      (answer ≡ ok (record w { balance = w.balance -ℤ amount }))
      × ((j : ℕ)
          → balance_at j b'.wallets
            ≡ (if j == id then w.balance -ℤ amount else balance_at j b.wallets))
unfolding debit
debit_lem id amount c r b {w} e p f enough = (
  ground arith,
  λ j. ground (
    arith,
    key-lookup id b.wallets e,
    lookup-save j (record w { balance = w.balance -ℤ amount }) b.wallets,
  ),
)

-- A debit that returns was of a positive amount that an unfrozen wallet held.
pub debit_ok :
    (id : ℕ) (amount : ℤ) (c : Category) (r : Option ℕ) (b : Bank) {w' : Wallet}
    → result (debit id amount c r) b ≡ ok w'
    → (w : Wallet) × (lookup id b.wallets ≡ some w)
      × (pos 1 ≤ℤ amount)
      × (w.is_frozen ≡ false)
      × (amount ≤ℤ w.balance)
unfolding debit
debit_ok id amount c r b e = elim (Option-cases (lookup id b.wallets)) [
  | inl missing ↦ ground arith
  | inr (w, found) ↦ (w, found, ground arith, ground arith, ground arith)
]

-- A debit leaves no balance below zero.
pub debit-IsSolvent :
    (id : ℕ) (amount : ℤ) (c : Category) (r : Option ℕ) (b : Bank)
    → IsSolvent b.wallets
    → IsSolvent (after (debit id amount c r) b).wallets
unfolding debit
debit-IsSolvent id amount c r b h = elim (Option-cases (lookup id b.wallets)) [
  | inl missing ↦ ground arith
  | inr (w, e) ↦
      ground (arith, -ℤ_parts w.balance amount, save-IsSolvent w (w.balance -ℤ amount) b.wallets h)
]

-- A credit leaves no balance below zero.
pub credit-IsSolvent :
    (s : Settings ℤ) (id : ℕ) (amount : ℤ) (c : Category) (r : Option ℕ) (b : Bank)
    → IsSolvent b.wallets
    → IsSolvent (after (credit s id amount c r) b).wallets
unfolding credit
credit-IsSolvent s id amount c r b h = elim (Option-cases (lookup id b.wallets)) [
  | inl missing ↦ ground arith
  | inr (w, e) ↦ ground (
    arith,
    +ℤ_parts w.balance amount,
    h.nonneg id,
    save-IsSolvent w (w.balance +ℤ amount) b.wallets h,
  )
]

-- A credit of a positive amount to a wallet that exists, and that is no top-up, succeeds.
pub credit_succeeds :
    (s : Settings ℤ) (id : ℕ) (amount : ℤ) (c : Category) (r : Option ℕ) (b : Bank) {w : Wallet}
    → pos 1 ≤ℤ amount
    → is_topup c ≡ false
    → lookup id b.wallets ≡ some w
    → (w' : Wallet) × (result (credit s id amount c r) b ≡ ok w')
unfolding credit over_maximum
credit_succeeds s id amount c r b {w} h t e =
    (record w { balance = w.balance +ℤ amount }, ground arith)

-- After a debit that went through, the amount was positive and no wallet is missing.
pub debit_keeps :
    (id other : ℕ) (amount : ℤ) (c : Category) (r : Option ℕ) (b : Bank) {w v : Wallet}
    → lookup other b.wallets ≡ some v
    → result (debit id amount c r) b ≡ ok w
    → (pos 1 ≤ℤ amount)
      × ((v' : Wallet) × (lookup other (after (debit id amount c r) b).wallets ≡ some v'))
unfolding debit
debit_keeps id other amount c r b {v} e h = elim (Option-cases (lookup id b.wallets)) [
  | inl missing ↦ absurd (ground arith)
  | inr (w, ew) ↦
      let w' : Wallet = record w { balance = w.balance -ℤ amount } in
      elim (Option-cases (lookup other (save w' b.wallets))) [
        | inl gone ↦ absurd (ground (arith, lookup-save other w' b.wallets))
        | inr (v', ev) ↦ (ground arith, (v', ground arith))
      ]
]
