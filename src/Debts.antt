-- ===== src/Debts.antt =====
-- src/reconciliation/reconciliation.service.ts with entities/cash-reconciliation.entity.ts: commission on
-- cash trips that a driver owes, and its settlement from their wallet. Amounts are whole kobo; who
-- wrote a debt off, and why, is left out.
pub mod Settlement
mod Tests
use ryda.Base.{
  ℕ, suc, ◌==◌, Bool, true, false, not, ◌&&◌, Option, none, some, List, [], ◌∷◌, if◌then◌else◌, ℤ,
  pos, ◌+ℤ◌, ltb_ℤ, Action, Result, ok, err, ◌>>=◌, ◌>>◌, pure, gets, or_throw, throw_if, modify,
  lookup, save, keep, length, Keyed, debt_not_found, debt_not_pending,
}
use ryda.Wallets.{wallet_of, debit}
use ryda.Wallets.Entities.{Bank, Wallet, commission}

-- ReconciliationSourceType
pub data SourceType : Type 0 where
  from_ride from_delivery : SourceType

-- ReconciliationStatus
pub data Status : Type 0 where
  pending settled written_off : Status

abbrev pub is_pending : Status → Bool
is_pending pending = true
is_pending _ = false

-- CashReconciliation
pub record Debt : Type 0 where
  pub id : ℕ
  pub driver_id : Option ℕ
  pub fleet_company_id : Option ℕ
  pub ride_id : ℕ
  pub source_type : SourceType
  pub amount_owed : ℤ
  pub status : Status

instance abbrev pub debt_keyed : Keyed Debt
debt_keyed = record { key = λ d. d.id }

pub record Debts : Type 0 where
  pub bank : Bank
  pub items : List Debt

-- recordDebt; the id is the one that the database generates.
unfoldable pub record_debt : ℕ → Option ℕ → Option ℕ → ℕ → ℤ → SourceType → Action Debts Debt
record_debt id driver_id fleet_company_id ride_id amount source_type = do
  let item : Debt = record {
    id = id;
    driver_id = driver_id;
    fleet_company_id = fleet_company_id;
    ride_id = ride_id;
    source_type = source_type;
    amount_owed = amount;
    status = pending;
  }
  modify (λ d. record d { items = save item d.items })
  pure item

-- `where: { driverId, status: PENDING }`
abbrev pub owes : ℕ → Debt → Bool
owes driver_id item =
    is_pending item.status && elim item.driver_id [ none ↦ false | some id ↦ id == driver_id ]

abbrev pub sum_owed : List Debt → ℤ
sum_owed [] = pos 0
sum_owed (item ∷ items) = item.amount_owed +ℤ sum_owed items

-- getOutstandingBalance: the sum, and how many debts are pending
unfoldable pub get_outstanding_balance : ℕ → Debts → ℤ × ℕ
get_outstanding_balance driver_id d =
    let pending_items = keep (owes driver_id) d.items in
    (sum_owed pending_items, length pending_items)

-- writeOff
unfoldable pub write_off : ℕ → Action Debts Debt
write_off id = do
  item ← or_throw (← gets (λ d. lookup id d.items)) debt_not_found
  throw_if (not (is_pending item.status)) debt_not_pending
  let closed : Debt = record item { status = written_off }
  modify (λ d. record d { items = save closed d.items })
  pure closed

-- The debit for one debt, and its new status.
unfoldable pub pay_debt : Wallet → Debt → Action Debts (Unit {0})
pay_debt wallet item d =
    let (answer, bank) = debit wallet.id item.amount_owed commission (some item.ride_id) d.bank in
    elim answer [
      | err e ↦ (err e, record d { bank = bank })
      | ok _ ↦
          (ok tt, record d { bank = bank; items = save (record item { status = settled }) d.items })
    ]

-- The loop's body: whether the loop goes on after this debt.
unfoldable pub settle_one : ℕ → Debt → Action Debts Bool
settle_one driver_id item d = elim (wallet_of driver_id d.bank.wallets) [
  | none ↦ (ok false, d)
  | some wallet ↦
      if ltb_ℤ wallet.balance item.amount_owed
      then (ok false, d)
      else (pay_debt wallet item >> pure true) d
]

-- The loop over the debts that were pending at its start: how many it settles, and their sum.
unfoldable pub settle_all : ℕ → List Debt → Action Debts (ℕ × ℤ)
settle_all driver_id [] = pure (0, pos 0)
settle_all driver_id (item ∷ items) = settle_one driver_id item >>= λ goes_on. elim goes_on [
  | false ↦ pure (0, pos 0)
  | true ↦ settle_all driver_id items >>= λ rest. pure (suc (rest.0), item.amount_owed +ℤ rest.1)
]

-- attemptSettle
unfoldable pub attempt_settle : ℕ → Action Debts (ℕ × ℤ)
attempt_settle driver_id d = settle_all driver_id (keep (owes driver_id) d.items) d
