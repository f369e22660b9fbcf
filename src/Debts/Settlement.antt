-- ===== src/Debts/Settlement.antt =====
-- What the settlement of debts does to money.
use ryda.Base.{
  ℕ, suc, ◌≡◌, refl, Bool, true, false, ℤ, pos, ◌+ℤ◌, ◌≤ℤ◌, none, some, List, [], ◌∷◌, arith,
  int_laws, lookup, lookup-save_ne, save, total, total-save, Distinct, keep, ◌>>=◌, pure, after,
  Result, ok, err, Option-cases, inl, inr, amount_not_positive,
}
use ryda.Wallets.{wallet_of, debit}
use ryda.Wallets.Entities.{Wallet, wallet_keyed, commission}
use ryda.Wallets.Conservation.{funds, debit-Moves}
use ryda.Debts.{
  pending, settled, Debt, debt_keyed, Debts, owes, pay_debt, settle_one, settle_all, attempt_settle,
}

-- What was paid for a debt.
abbrev pub paid : Debt → ℤ
paid item = elim item.status [ settled ↦ item.amount_owed | _ ↦ pos 0 ]

-- All balances, and all that was paid for debts.
abbrev pub assets : Debts → ℤ
assets d = funds d.bank +ℤ total paid d.items

-- Debts that are pending in the table, each under its own id.
abbrev pub Ready : List Debt → List Debt → Type 0
Ready [] items = Unit
Ready (x ∷ xs) items =
    (lookup x.id items ≡ some x) × (x.status ≡ pending) × (lookup x.id xs ≡ none) × Ready xs items

Ready-save :
    (y : Debt) (xs items : List Debt)
    → lookup y.id xs ≡ none
    → Ready xs items
    → Ready xs (save y items)
Ready-save y [] items h r = tt
Ready-save y (x ∷ xs) items h r = ground (arith, Ready-save y xs items, lookup-save_ne x.id y items)

lookup-keep-none :
    (id : ℕ) (p : Debt → Bool) (xs : List Debt) → lookup id xs ≡ none → lookup id (keep p xs) ≡ none
lookup-keep-none id p [] h = refl
lookup-keep-none id p (x ∷ xs) h = ground (arith, lookup-keep-none id p xs)

keep-Ready :
    (driver_id : ℕ) (xs items : List Debt)
    → Distinct xs
    → ((id : ℕ) (x : Debt) → lookup id xs ≡ some x → lookup id items ≡ some x)
    → Ready (keep (owes driver_id) xs) items
keep-Ready driver_id [] items d f = tt
keep-Ready driver_id (x ∷ xs) items d f = ground (
  arith,
  f x.id x,
  lookup-keep-none x.id (owes driver_id) xs d.0,
  keep-Ready driver_id xs items d.1 (λ id y e. f id y (ground arith)),
)

-- The answer of one round, and what it leaves.
abbrev pub Settled : Debt → List Debt → Debts → Result Bool × Debts → Type 0
Settled x xs d (ok true, d') = (assets d' ≡ assets d) × Ready xs d'.items
Settled x xs d (ok false, d') = d' ≡ d
Settled x xs d (err _, d') = d' ≡ d

settle_one-Settled :
    (driver_id : ℕ) (x : Debt) (xs : List Debt) (d : Debts)
    → Ready (x ∷ xs) d.items
    → Settled x xs d (settle_one driver_id x d)
unfolding settle_one pay_debt
settle_one-Settled driver_id x xs d r = elim (Option-cases (wallet_of driver_id d.bank.wallets)) [
  | inl missing ↦ ground arith
  | inr (w, e) ↦
      let x' : Debt = record x { status = settled } in
      grind (
        int_laws,
        debit-Moves w.id x.amount_owed commission (some x.ride_id) d.bank,
        total-save paid x' x d.items r.0,
        Ready-save x' xs d.items r.2 r.3,
      )
]

-- The rest of the loop, after a round that left `one`.
finish_round :
    (driver_id : ℕ) (x : Debt) (xs : List Debt) (d : Debts) (one : Result Bool × Debts)
    → Settled x xs d one
    → ((e : Debts) → Ready xs e.items → assets (after (settle_all driver_id xs) e) ≡ assets e)
    → assets (
        after {A = ℕ × ℤ}
          ((λ _. one) >>= λ goes_on. elim goes_on [
            | false ↦ pure (0, pos 0)
            | true ↦
                settle_all driver_id xs >>= λ rest. pure (suc (rest.0), x.amount_owed +ℤ rest.1)
          ])
          d)
      ≡ assets d
finish_round driver_id x xs d (ok true, d') h rest = ground (arith, rest d' h.1)
finish_round driver_id x xs d (ok false, d') h rest = rw h
finish_round driver_id x xs d (err e, d') h rest = rw h

settle_all-assets :
    (driver_id : ℕ) (xs : List Debt) (d : Debts)
    → Ready xs d.items
    → assets (after (settle_all driver_id xs) d) ≡ assets d
unfolding settle_all
settle_all-assets driver_id [] d r = refl
settle_all-assets driver_id (x ∷ xs) d r =
    finish_round driver_id x xs d (settle_one driver_id x d) (settle_one-Settled driver_id x xs d r)
      (λ e q. settle_all-assets driver_id xs e q)

-- Settling a driver's debts keeps the sum of all balances and of all that was paid for debts, however
-- it ends: every debt that becomes settled is paid in full, and nothing else is taken. No two debts
-- have the same id.
pub attempt_settle-assets :
    (driver_id : ℕ) (d : Debts)
    → Distinct d.items
    → assets (after (attempt_settle driver_id) d) ≡ assets d
unfolding attempt_settle
attempt_settle-assets driver_id d h =
    settle_all-assets driver_id (keep (owes driver_id) d.items) d
      (keep-Ready driver_id d.items d.items h (λ id x e. e))

-- When a driver's oldest pending debt is of nothing, and their balance is not below zero, the
-- settlement always throws: it changes nothing, so that no later debt is ever settled.
pub zero_debt_blocks :
    (driver_id : ℕ) (d : Debts) {x : Debt} {xs : List Debt} {w : Wallet}
    → keep (owes driver_id) d.items ≡ x ∷ xs
    → x.amount_owed ≡ pos 0
    → wallet_of driver_id d.bank.wallets ≡ some w
    → pos 0 ≤ℤ w.balance
    → attempt_settle driver_id d ≡ (err amount_not_positive, d)
unfolding attempt_settle settle_all settle_one pay_debt debit
zero_debt_blocks driver_id d e z w b = ground arith
