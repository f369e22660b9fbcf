-- ===== src/Audit/Tests.antt =====
-- Runs of the ledger audit, and examples of the theorems about it.
use ryda.Base.{arith, ◌≡◌, refl, true, false, pos, ◌+ℤ◌, ◌-ℤ◌, none, some, [], ◌∷◌, after, ok}
use mathlib.Core.List.{Memᴰ}
use ryda.Wallets.{create_for_user, credit, over_maximum}
use ryda.Wallets.Entities.{wallet_keyed, Bank, topup}
use ryda.Wallets.History.{start, next, created, credited, empty}
use ryda.Audit.{
  Audit, wallet, scan, scan_one, report, latest_balance, is_mismatch, discrepancy_of,
  check_wallet_chain, Discrepancy, opened,
}
use ryda.Audit.Chain.{check_wallet_chain-Reach}
use ryda.Audit.Scan.{last_row, scan_complete}

abbrev clean : Audit
clean = record { discrepancies = []; next_id = 1 }

-- Account 4 has a balance of 70 where its latest row says 60; account 5 has no row.
mismatches : scan wallet ((4, pos 70) ∷ (5, pos 0) ∷ []) ((4, pos 50) ∷ (4, pos 60) ∷ []) clean ≡ (
  discrepancy_of wallet 4 (pos 70) (some (pos 60)) 1 ∷ [],
  record { discrepancies = discrepancy_of wallet 4 (pos 70) (some (pos 60)) 1 ∷ []; next_id = 2 },
)
unfolding scan scan_one report latest_balance is_mismatch ◌-ℤ◌
mismatches = refl

scan_complete_example :
    let a' = (scan wallet ((5, pos 0) ∷ (4, pos 70) ∷ []) ((4, pos 60) ∷ []) clean).1 in
    (d : Discrepancy) × Memᴰ d a'.discrepancies
    × (d.account_type ≡ wallet)
    × (d.wallet_id ≡ 4)
    × (d.status ≡ opened)
scan_complete_example =
    scan_complete wallet 4 (pos 70) (pos 60) ((5, pos 0) ∷ (4, pos 70) ∷ []) ((4, pos 60) ∷ [])
      clean (Memᴰ.tail (Memᴰ.head refl)) (last_row [] [] refl) (λ e. ground arith)

abbrev opened_wallet : Bank
opened_wallet = after (create_for_user 1 10) empty

abbrev funded : Bank
funded = after (credit (λ _. none) 1 (pos 500) topup none) opened_wallet

check_wallet_chain-Reach_example :
    check_wallet_chain 1 funded
    ≡ (ok (record { passed = true; computed_balance = pos 500; broken_at = none }), funded)
unfolding create_for_user credit over_maximum ◌+ℤ◌
check_wallet_chain-Reach_example =
    check_wallet_chain-Reach 1 {b = funded}
      {w = record { id = 1; user_id = 10; balance = pos 500; is_frozen = false }}
      (next (next start (created empty 1 10 refl))
        (credited opened_wallet (λ _. none) 1 (pos 500) topup none))
      refl
