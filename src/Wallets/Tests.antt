-- ===== src/Wallets/Tests.antt =====
-- Runs of the wallet methods, and examples of the theorems about them.
use ryda.Base.{
  some, ◌≡◌, refl, false, pos, ◌+ℤ◌, ◌-ℤ◌, none, [], ◌∷◌, after, result, ok, err, own_wallet,
  insufficient_balance,
}
use ryda.Wallets.{create_for_user, credit, debit, transfer, transfer_locked, lock_pair, move_funds}
use ryda.Wallets.Entities.{Wallet, wallet_keyed, Bank, topup, withdrawal}
use ryda.Wallets.Conservation.{Moves, transfer-Moves}
use ryda.Wallets.History.{start, next, created, credited, empty, IsSound, Reach-IsSound}
use ryda.Wallets.Accounts.{maximum_of, accounts, steps, replay, replay_refines, pay_in, pay_out}

abbrev alice : Wallet
alice = record { id = 1; user_id = 10; balance = pos 1000; is_frozen = false }

abbrev bob : Wallet
bob = record { id = 2; user_id = 20; balance = pos 50; is_frozen = false }

abbrev bank : Bank
bank = record { wallets = alice ∷ bob ∷ []; transactions = []; events = []; now = 7 }

transferred_balances :
    result (transfer 2 1 (pos 30) (pos 5) none) bank
    ≡ ok (record bob { balance = pos 15 }, record alice { balance = pos 1030 })
unfolding transfer transfer_locked lock_pair move_funds ◌+ℤ◌ ◌-ℤ◌
transferred_balances = refl

own_transfer : transfer 1 1 (pos 30) (pos 5) none bank ≡ (err own_wallet, bank)
unfolding transfer
own_transfer = refl

overdrawn : debit 2 (pos 51) withdrawal none bank ≡ (err insufficient_balance, bank)
unfolding debit
overdrawn = refl

transfer-Moves_example : Moves bank (pos 0 -ℤ pos 5) (transfer 2 1 (pos 30) (pos 5) none bank)
transfer-Moves_example = transfer-Moves 2 1 (pos 30) (pos 5) none bank

abbrev funded : Bank
funded = after (credit (λ _. none) 1 (pos 500) topup none) (after (create_for_user 1 10) empty)

Reach-IsSound_example : IsSound funded
Reach-IsSound_example = Reach-IsSound (
    next (next start (created empty 1 10 refl))
      (credited (after (create_for_user 1 10) empty) (λ _. none) 1 (pos 500) topup none))

replay_refines_example :
    accounts (
      replay
        (λ _. none)
        (pay_in 1 (pos 30) topup none ∷ pay_out 2 (pos 90) withdrawal (some 3) ∷ [])
        bank)
    ≡ steps
        (maximum_of (λ _. none))
        (pay_in 1 (pos 30) topup none ∷ pay_out 2 (pos 90) withdrawal (some 3) ∷ [])
        (accounts bank)
replay_refines_example =
    replay_refines (λ _. none)
      (pay_in 1 (pos 30) topup none ∷ pay_out 2 (pos 90) withdrawal (some 3) ∷ []) bank
