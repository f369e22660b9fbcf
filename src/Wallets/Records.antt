-- ===== src/Wallets/Records.antt =====
-- The ledger of a wallet: every balance is the sum of the rows that were written for it, and each
-- row's `balance_after` is the sum up to it.
use ryda.Base.{
  ℕ, ◌==◌, ◌≡◌, refl, ℤ, pos, ◌+ℤ◌, ◌-ℤ◌, Option, none, some, List, [], ◌∷◌, ◌++◌, arith, int_laws,
  if◌then◌else◌, Option-cases, inl, inr, lookup, save, lookup-save, lookup-save_ne, sym, Distinct,
  save-Distinct, lookup-key_of, after, ◌≢◌, Result, ok, err, transaction, ◌>>=◌,
}
use ryda.Wallets.{credit, debit, transfer, move_funds, lock_pair, transfer_locked}
use ryda.Wallets.Entities.{
  Wallet, wallet_keyed, WalletTransaction, Direction, credit_direction, debit_direction, Category,
  transfer_sent, transfer_received, Bank,
}
use ryda.Wallets.Conservation.{Locked, lock_pair-Locked}
use ryda.Settings.{Settings}

-- What a row adds to the balance.
abbrev pub signed : WalletTransaction → ℤ
signed t = elim t.direction [ credit_direction ↦ t.amount | debit_direction ↦ pos 0 -ℤ t.amount ]

-- The balance of wallet `id` after the rows `ts`, from `acc`.
abbrev pub replay : ℕ → ℤ → List WalletTransaction → ℤ
replay id acc [] = acc
replay id acc (t ∷ ts) = replay id (if t.wallet_id == id then acc +ℤ signed t else acc) ts

-- Each row of wallet `id` states the balance that it leaves.
abbrev pub Chained : ℕ → ℤ → List WalletTransaction → Type 0
Chained id acc [] = Unit
Chained id acc (t ∷ ts) =
    (t.wallet_id ≡ id → t.balance_after ≡ acc +ℤ signed t)
    × Chained id (if t.wallet_id == id then acc +ℤ signed t else acc) ts

-- A wallet that does not exist has balance 0.
abbrev pub balance_at : ℕ → List Wallet → ℤ
balance_at id wallets = elim (lookup id wallets) [ none ↦ pos 0 | some w ↦ w.balance ]

pub record IsRecorded (wallets : List Wallet) (ts : List WalletTransaction) : Type 0 where
  pub replayed : (id : ℕ) → balance_at id wallets ≡ replay id (pos 0) ts
  pub chained : (id : ℕ) → Chained id (pos 0) ts
  pub distinct : Distinct wallets

replay-append :
    (id : ℕ) (acc : ℤ) (ts : List WalletTransaction) (t : WalletTransaction)
    → replay id acc (ts ++ t ∷ [])
      ≡ (if t.wallet_id == id then replay id acc ts +ℤ signed t else replay id acc ts)
replay-append id acc [] t = refl
replay-append id acc (u ∷ ts) t =
    replay-append id (if u.wallet_id == id then acc +ℤ signed u else acc) ts t

Chained-append :
    (id : ℕ) (acc : ℤ) (ts : List WalletTransaction) (t : WalletTransaction)
    → Chained id acc ts
    → (t.wallet_id ≡ id → t.balance_after ≡ replay id acc ts +ℤ signed t)
    → Chained id acc (ts ++ t ∷ [])
Chained-append id acc [] t h p = (p, tt)
Chained-append id acc (u ∷ ts) t h p =
    (h.0, Chained-append id (if u.wallet_id == id then acc +ℤ signed u else acc) ts t h.1 p)

-- Setting one balance, with the row that accounts for the change.
pub post-IsRecorded :
    (w : Wallet) (t : WalletTransaction) (wallets : List Wallet) (ts : List WalletTransaction)
    → IsRecorded wallets ts
    → lookup w.id wallets ≡ some w
    → t.wallet_id ≡ w.id
    → t.balance_after ≡ w.balance +ℤ signed t
    → IsRecorded (save (record w { balance = t.balance_after }) wallets) (ts ++ t ∷ [])
post-IsRecorded w t wallets ts h e k p = record {
  replayed = λ id. ground (
    arith,
    h.replayed id,
    replay-append id (pos 0) ts t,
    lookup-save id (record w { balance = t.balance_after }) wallets,
  );
  chained =
      λ id. Chained-append id (pos 0) ts t (h.chained id) (λ q. ground (arith, h.replayed id));
  distinct = save-Distinct (record w { balance = t.balance_after }) wallets h.distinct;
}

abbrev Recorded : Bank → Type 0
Recorded b = IsRecorded b.wallets b.transactions

-- The row that `post` writes.
abbrev row : Wallet → Direction → Category → ℤ → Option ℕ → ℤ → ℕ → WalletTransaction
row w direction category amount reference balance now = record {
  wallet_id = w.id;
  direction = direction;
  category = category;
  amount = amount;
  balance_after = balance;
  reference_id = reference;
  created_at = now;
}

-- A credit keeps every balance equal to the sum of its rows, whether it returns or throws.
pub credit-IsRecorded :
    (s : Settings ℤ) (id : ℕ) (amount : ℤ) (c : Category) (r : Option ℕ) (b : Bank)
    → Recorded b
    → Recorded (after (credit s id amount c r) b)
unfolding credit
credit-IsRecorded s id amount c r b h = elim (Option-cases (lookup id b.wallets)) [
  | inl missing ↦ ground arith
  | inr (w, e) ↦ ground (
    arith,
    post-IsRecorded w (row w credit_direction c amount r (w.balance +ℤ amount) b.now) b.wallets
        b.transactions h (lookup-key_of id b.wallets e) refl refl,
  )
]

minus : (a b : ℤ) → a -ℤ b ≡ a +ℤ (pos 0 -ℤ b)
minus a b = omega int_laws

-- A debit keeps every balance equal to the sum of its rows, whether it returns or throws.
pub debit-IsRecorded :
    (id : ℕ) (amount : ℤ) (c : Category) (r : Option ℕ) (b : Bank)
    → Recorded b
    → Recorded (after (debit id amount c r) b)
unfolding debit
debit-IsRecorded id amount c r b h = elim (Option-cases (lookup id b.wallets)) [
  | inl missing ↦ ground arith
  | inr (w, e) ↦ ground (
    arith,
    post-IsRecorded w (row w debit_direction c amount r (w.balance -ℤ amount) b.now) b.wallets
        b.transactions h (lookup-key_of id b.wallets e) refl (minus w.balance amount),
  )
]

move_funds-IsRecorded :
    (s t : Wallet) (amount fee : ℤ) (r : Option ℕ) (b : Bank)
    → Recorded b
    → s.id ≢ t.id
    → lookup s.id b.wallets ≡ some s
    → lookup t.id b.wallets ≡ some t
    → Recorded (after (transaction (move_funds s t amount fee r)) b)
unfolding move_funds
move_funds-IsRecorded s t amount fee r b h ne es et =
    let sent =
      row s debit_direction transfer_sent (amount +ℤ fee) r (s.balance -ℤ (amount +ℤ fee)) b.now in
    let s' : Wallet = record s { balance = s.balance -ℤ (amount +ℤ fee) } in
    ground (
      arith,
      post-IsRecorded t
          (row t credit_direction transfer_received amount r (t.balance +ℤ amount) b.now)
          (save s' b.wallets) (b.transactions ++ sent ∷ [])
          (post-IsRecorded s sent b.wallets b.transactions h es refl
            (minus s.balance (amount +ℤ fee)))
          (rw (lookup-save_ne t.id s' b.wallets (λ e. ne (sym e))) et) refl refl,
    )

move-Locked-IsRecorded :
    (s t : ℕ) (amount fee : ℤ) (r : Option ℕ) (b : Bank) (locked : Result (Wallet × Wallet) × Bank)
    → s ≢ t
    → Recorded b
    → Locked s t b locked
    → Recorded (after (transaction ((λ _. locked) >>= λ p. move_funds p.0 p.1 amount fee r)) b)
move-Locked-IsRecorded s t amount fee r b (ok (v, w), b') ne h l =
    ground (arith, move_funds-IsRecorded v w amount fee r b h)
move-Locked-IsRecorded s t amount fee r b (err e, b') ne h l = h

transfer_locked-IsRecorded :
    (s t : ℕ) (amount fee : ℤ) (r : Option ℕ) (b : Bank)
    → s ≢ t
    → Recorded b
    → Recorded (after (transaction (transfer_locked s t amount fee r)) b)
unfolding transfer_locked
transfer_locked-IsRecorded s t amount fee r b ne h =
    move-Locked-IsRecorded s t amount fee r b (lock_pair s t b) ne h (lock_pair-Locked s t b ne)

-- A transfer keeps every balance equal to the sum of its rows, whether it returns or throws.
pub transfer-IsRecorded :
    (s t : ℕ) (amount fee : ℤ) (r : Option ℕ) (b : Bank)
    → Recorded b
    → Recorded (after (transfer s t amount fee r) b)
unfolding transfer
transfer-IsRecorded s t amount fee r b h =
    ground (arith, λ (ne : s ≢ t). transfer_locked-IsRecorded s t amount fee r b ne h)
