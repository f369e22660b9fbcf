-- ===== src/Audit/Chain.antt =====
-- The walk along a ledger that only the wallet methods wrote.
use ryda.Base.{
  ℕ, ◌==◌, ◌≡◌, ℤ, pos, ◌+ℤ◌, distance, none, some, List, [], ◌∷◌, arith, int_laws, lookup, keep,
  true, ok,
}
use ryda.Wallets.Entities.{Wallet, wallet_keyed, WalletTransaction, Bank}
use ryda.Wallets.Records.{Chained, replay, signed}
use ryda.Wallets.History.{Reach, Reach-IsSound}
use ryda.Audit.{walk, step_balance, check_wallet_chain}

distance_self : (a : ℤ) → distance a a ≡ 0
distance_self a = omega arith

step_balance-eq_signed : (acc : ℤ) (t : WalletTransaction) → step_balance acc t ≡ acc +ℤ signed t
step_balance-eq_signed acc t = grind int_laws

walk-Chained :
    (id : ℕ) (acc balance : ℤ) (ts : List WalletTransaction)
    → Chained id acc ts
    → replay id acc ts ≡ balance
    → walk balance acc (keep (λ t. t.wallet_id == id) ts)
      ≡ record { passed = true; computed_balance = balance; broken_at = none }
unfolding walk
walk-Chained id acc balance [] h e = rw e (rw (distance_self balance))
walk-Chained id acc balance (t ∷ ts) h e = ground (
  arith,
  step_balance-eq_signed acc t,
  distance_self t.balance_after,
  walk-Chained id (acc +ℤ signed t) balance ts,
  walk-Chained id acc balance ts,
)

-- For every wallet of a bank that the wallet methods reach from empty tables, the walk along its
-- ledger passes, and computes exactly the wallet's balance.
pub check_wallet_chain-Reach :
    (id : ℕ) {b : Bank} {w : Wallet}
    → Reach b
    → lookup id b.wallets ≡ some w
    → check_wallet_chain id b
      ≡ (ok (record { passed = true; computed_balance = w.balance; broken_at = none }), b)
unfolding check_wallet_chain
check_wallet_chain-Reach id {b} {w} r e = ground (
  arith,
  (Reach-IsSound r).recorded.replayed id,
  walk-Chained id (pos 0) w.balance b.transactions ((Reach-IsSound r).recorded.chained id),
)
