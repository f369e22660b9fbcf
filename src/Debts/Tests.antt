-- ===== src/Debts/Tests.antt =====
-- Runs of the settlement of debts, and examples of the theorems about it.
use ryda.Base.{
  ◌≡◌, refl, false, pos, ◌+ℤ◌, ◌-ℤ◌, none, some, [], ◌∷◌, arith, after, result, ok, err,
  amount_not_positive,
}
use ryda.Wallets.{debit}
use ryda.Wallets.Entities.{Bank}
use ryda.Debts.{from_ride, pending, Debt, Debts, pay_debt, settle_one, settle_all, attempt_settle}
use ryda.Debts.Settlement.{assets, attempt_settle-assets, zero_debt_blocks}

abbrev debt : Debt
debt = record {
  id = 1;
  driver_id = some 10;
  fleet_company_id = none;
  ride_id = 5;
  source_type = from_ride;
  amount_owed = pos 300;
  status = pending;
}

abbrev driver_bank : Bank
driver_bank = record {
  wallets = record { id = 1; user_id = 10; balance = pos 700; is_frozen = false } ∷ [];
  transactions = [];
  events = [];
  now = 0;
}

abbrev three : Debts
three = record {
  bank = driver_bank;
  items = debt ∷ record debt { id = 2 } ∷ record debt { id = 3 } ∷ [];
}

-- 700 pays two of three debts of 300.
two_paid : result (attempt_settle 10) three ≡ ok (2, pos 600)
unfolding attempt_settle settle_all settle_one pay_debt debit ◌+ℤ◌ ◌-ℤ◌
two_paid = refl

attempt_settle-assets_example : assets (after (attempt_settle 10) three) ≡ assets three
attempt_settle-assets_example = attempt_settle-assets 10 three (refl, (refl, (refl, tt)))

abbrev blocked : Debts
blocked = record three { items = record debt { amount_owed = pos 0 } ∷ record debt { id = 2 } ∷ [] }

zero_debt_blocks_example : attempt_settle 10 blocked ≡ (err amount_not_positive, blocked)
zero_debt_blocks_example =
    zero_debt_blocks 10 blocked {x = record debt { amount_owed = pos 0 }}
      {xs = record debt { id = 2 } ∷ []}
      {w = record { id = 1; user_id = 10; balance = pos 700; is_frozen = false }} refl refl refl
      (omega arith)
