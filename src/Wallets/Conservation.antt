-- ===== src/Wallets/Conservation.antt =====
-- What the wallet methods do to the sum of all balances, and their atomicity.
use ryda.Base.{
  ℕ, min, max, ℤ, pos, ◌+ℤ◌, ◌-ℤ◌, ◌≡◌, ◌≢◌, some, none, refl, ◌>>=◌, ◌⊎◌, transaction,
  wallet_not_found, arith, int_laws, Result, ok, err, Option-cases, inl, inr, Option, total,
  total-save, save, lookup-key_of, key-lookup, lookup, lookup-save_ne, +ℤ-cancel, -ℤ-cancel,
}
use ryda.Wallets.{credit, debit, transfer, move_funds, lock_pair, transfer_locked}
use ryda.Wallets.Entities.{Wallet, wallet_keyed, Category, Bank}
use ryda.Settings.{Settings}

-- The sum of all balances.
abbrev pub funds : Bank → ℤ
funds b = total (λ w. w.balance) b.wallets

-- A call either returns with the sum changed by `change`, or throws with everything as it was.
abbrev pub Moves : {A : Type 0} → Bank → ℤ → Result A × Bank → Type 0
Moves b change (ok _, b') = funds b' ≡ funds b +ℤ change
Moves b change (err _, b') = b' ≡ b

-- `post` sets one balance.
pub funds-post :
    (w : Wallet) (balance : ℤ) (b : Bank)
    → lookup w.id b.wallets ≡ some w
    → total (λ w. w.balance) (save (record w { balance = balance }) b.wallets)
      ≡ funds b +ℤ (balance -ℤ w.balance)
funds-post w balance b e = grind (
  int_laws,
  total-save (λ (w : Wallet). w.balance) (record w { balance = balance }) w b.wallets e,
)

-- A credit adds its amount to the sum of all balances, or throws and changes nothing.
pub credit-Moves :
    (s : Settings ℤ) (id : ℕ) (amount : ℤ) (c : Category) (r : Option ℕ) (b : Bank)
    → Moves b amount (credit s id amount c r b)
unfolding credit
credit-Moves s id amount c r b = elim (Option-cases (lookup id b.wallets)) [
  | inl missing ↦ ground arith
  | inr (w, e) ↦ ground (
    arith,
    funds-post w (w.balance +ℤ amount) b (lookup-key_of id b.wallets e),
    +ℤ-cancel w.balance amount,
  )
]

-- A debit takes its amount from the sum of all balances, or throws and changes nothing.
pub debit-Moves :
    (id : ℕ) (amount : ℤ) (c : Category) (r : Option ℕ) (b : Bank)
    → Moves b (pos 0 -ℤ amount) (debit id amount c r b)
unfolding debit
debit-Moves id amount c r b = elim (Option-cases (lookup id b.wallets)) [
  | inl missing ↦ ground arith
  | inr (w, e) ↦ ground (
    arith,
    funds-post w (w.balance -ℤ amount) b (lookup-key_of id b.wallets e),
    -ℤ-cancel w.balance amount,
  )
]

two_posts :
    (f : ℤ) (x y amount fee : ℤ)
    → (f +ℤ (x -ℤ (amount +ℤ fee) -ℤ x)) +ℤ (y +ℤ amount -ℤ y) ≡ f +ℤ (pos 0 -ℤ fee)
two_posts f x y amount fee = omega int_laws

move_funds-Moves :
    (s t : Wallet) (amount fee : ℤ) (r : Option ℕ) (b : Bank)
    → s.id ≢ t.id
    → lookup s.id b.wallets ≡ some s
    → lookup t.id b.wallets ≡ some t
    → Moves b (pos 0 -ℤ fee) (move_funds s t amount fee r b)
unfolding move_funds
move_funds-Moves s t amount fee r b ne es et =
    let s' : Wallet = record s { balance = s.balance -ℤ (amount +ℤ fee) } in
    let b' : Bank = record b { wallets = save s' b.wallets } in
    ground (
      arith,
      funds-post s (s.balance -ℤ (amount +ℤ fee)) b es,
      funds-post t (t.balance +ℤ amount) b',
      lookup-save_ne t.id s' b.wallets,
      two_posts (funds b) s.balance t.balance amount fee,
    )

-- What `lock_pair` hands over: the two rows by their ids, with nothing written.
abbrev pub Locked : ℕ → ℕ → Bank → Result (Wallet × Wallet) × Bank → Type 0
Locked s t b (ok (v, w), b') =
    (b' ≡ b)
    × (v.id ≡ s)
    × (w.id ≡ t)
    × (lookup v.id b.wallets ≡ some v)
    × (lookup w.id b.wallets ≡ some w)
Locked s t b (err e, b') =
    (b' ≡ b) × (e ≡ wallet_not_found) × ((lookup s b.wallets ≡ none) ⊎ (lookup t b.wallets ≡ none))

min-max : (s t : ℕ) → ((min s t ≡ s) × (max s t ≡ t)) ⊎ ((min s t ≡ t) × (max s t ≡ s))
min-max s t = omega arith

pub lock_pair-Locked : (s t : ℕ) (b : Bank) → s ≢ t → Locked s t b (lock_pair s t b)
unfolding lock_pair
lock_pair-Locked s t b ne = elim (Option-cases (lookup (min s t) b.wallets)) [
  | inl missing ↦ ground (arith, min-max s t)
  | inr (v, ev) ↦ elim (Option-cases (lookup (max s t) b.wallets)) [
    | inl missing ↦ ground (arith, min-max s t)
    | inr (w, ew) ↦
        ground (arith, key-lookup (min s t) b.wallets ev, key-lookup (max s t) b.wallets ew)
  ]
]

move-Locked-Moves :
    (s t : ℕ) (amount fee : ℤ) (r : Option ℕ) (b : Bank) (locked : Result (Wallet × Wallet) × Bank)
    → s ≢ t
    → Locked s t b locked
    → Moves b
        (pos 0 -ℤ fee)
        (transaction ((λ _. locked) >>= λ p. move_funds p.0 p.1 amount fee r) b)
move-Locked-Moves s t amount fee r b (ok (v, w), b') ne h =
    ground (arith, move_funds-Moves v w amount fee r b)
move-Locked-Moves s t amount fee r b (err e, b') ne h = refl

transfer_locked-Moves :
    (s t : ℕ) (amount fee : ℤ) (r : Option ℕ) (b : Bank)
    → s ≢ t
    → Moves b (pos 0 -ℤ fee) (transaction (transfer_locked s t amount fee r) b)
unfolding transfer_locked
transfer_locked-Moves s t amount fee r b ne =
    move-Locked-Moves s t amount fee r b (lock_pair s t b) ne (lock_pair-Locked s t b ne)

-- A transfer takes exactly its fee from the sum of all balances, or throws and changes nothing.
pub transfer-Moves :
    (s t : ℕ) (amount fee : ℤ) (r : Option ℕ) (b : Bank)
    → Moves b (pos 0 -ℤ fee) (transfer s t amount fee r b)
unfolding transfer
transfer-Moves s t amount fee r b = ground (arith, transfer_locked-Moves s t amount fee r b)
