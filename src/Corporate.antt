-- ===== src/Corporate.antt =====
-- src/corporate/corporate.service.ts: corporate accounts with their ride policy, the ledger of their
-- budget, the approval of rides, and invoices. The clock is part of the state; generated ids are
-- arguments.
pub mod Entities
pub mod Policy
pub mod Invoices
pub mod Books
mod Tests
use ryda.Base.{
  ℕ, ◌+◌, ◌==◌, ltb, leb, Bool, true, false, not, ◌&&◌, ◌||◌, is_some, Option, none, some, List, [],
  ◌∷◌, ◌++◌, if◌then◌else◌, ℤ, pos, ◌+ℤ◌, ◌-ℤ◌, ltb_ℤ, leb_ℤ, Action, Result, ok, err, ◌>>=◌, ◌>>◌,
  pure, gets, or_throw, throw_if, modify, transaction, lookup, save, find_first, find_last, keep,
  length, some_of, corporate_account_not_found, employee_exists, employee_not_found,
  approval_not_found, already_reviewed, corporate_amount_not_positive, corporate_inactive,
  insufficient_corporate_budget, user_not_found,
}
use ryda.Wallets.Entities.{Direction, credit_direction, debit_direction}
use ryda.Users.{User, user_keyed}
use ryda.Trips.{RideCategory, same_category}
use Entities.{
  CorporateAccount, account_keyed, CorporateEmployee, employee_keyed, CorporateTransaction,
  ApprovalStatus, pending, approved, rejected, is_pending, CorporateRideApproval, approval_keyed,
  CorporateInvoice, invoice_keyed, Corporate,
}

-- createAccount; the policy columns are empty.
unfoldable pub create_account : ℕ → ℕ → ℤ → Action Corporate CorporateAccount
create_account id owner_user_id initial_budget = do
  let account : CorporateAccount = record {
    id = id;
    owner_user_id = owner_user_id;
    budget_balance = initial_budget;
    is_active = true;
    allowed_categories = none;
    max_fare_per_ride = none;
    operating_hours_start = none;
    operating_hours_end = none;
    allowed_cities = none;
    requires_approval_above_fare = none;
  }
  modify (λ c. record c { accounts = save account c.accounts })
  pure account

-- findById
unfoldable pub find_by_id : ℕ → Action Corporate CorporateAccount
find_by_id id c = or_throw (lookup id c.accounts) corporate_account_not_found c

abbrev pub employee_of : ℕ → List CorporateEmployee → Option CorporateEmployee
employee_of user_id = find_first (λ e. e.user_id == user_id)

-- addEmployee, with the table of users
unfoldable pub add_employee : List User → ℕ → ℕ → ℕ → Action Corporate CorporateEmployee
add_employee users id account_id user_id = do
  find_by_id account_id
  throw_if (not (is_some (lookup user_id users))) user_not_found
  existing ← gets (λ c. employee_of user_id c.employees)
  throw_if (is_some existing) employee_exists
  let employee : CorporateEmployee = record {
    id = id;
    corporate_account_id = account_id;
    user_id = user_id;
    is_active = true;
    department = none;
    monthly_spend_limit = none;
  }
  modify (λ c. record c { employees = save employee c.employees })
  pure employee

-- updateEmployee, for a spend limit that is set or taken away
unfoldable pub set_spend_limit : ℕ → ℕ → Option ℤ → Action Corporate CorporateEmployee
set_spend_limit account_id user_id limit = do
  found ← gets (λ c.
      find_first (λ e. e.user_id == user_id && e.corporate_account_id == account_id) c.employees)
  employee ← or_throw found employee_not_found
  let saved : CorporateEmployee = record employee { monthly_spend_limit = limit }
  modify (λ c. record c { employees = save saved c.employees })
  pure saved

abbrev pub is_debit : Direction → Bool
is_debit debit_direction = true
is_debit credit_direction = false

abbrev pub same_user : ℕ → Option ℕ → Bool
same_user user_id u = elim u [ none ↦ false | some id ↦ id == user_id ]

abbrev pub sum_amounts : List CorporateTransaction → ℤ
sum_amounts [] = pos 0
sum_amounts (t ∷ ts) = t.amount +ℤ sum_amounts ts

-- What an employee spent since the start of the month.
abbrev pub spent_since : ℕ → ℕ → List CorporateTransaction → ℤ
spent_since start_of_month user_id ts = sum_amounts (
    keep
      (λ t.
        same_user user_id t.employee_user_id
        && is_debit t.direction
        && leb start_of_month t.created_at)
      ts)

-- checkEmployeeSpendLimit
unfoldable pub check_employee_spend_limit : ℕ → ℕ → ℤ → Corporate → Bool
check_employee_spend_limit start_of_month user_id additional c =
    elim (employee_of user_id c.employees) [
      | none ↦ true
      | some employee ↦ elim employee.monthly_spend_limit [
        | none ↦ true
        | some limit ↦ leb_ℤ (spent_since start_of_month user_id c.transactions +ℤ additional) limit
      ]
    ]

-- getAccountForEmployee
unfoldable pub get_account_for_employee : ℕ → Action Corporate (Option CorporateAccount)
get_account_for_employee user_id c =
    elim (find_first (λ e. e.user_id == user_id && e.is_active) c.employees) [
      | none ↦ (ok none, c)
      | some employee ↦ (find_by_id employee.corporate_account_id >>= λ a. pure (some a)) c
    ]

-- The callback of the transaction in applyLedgerChange.
unfoldable pub change_locked :
    ℕ → ℤ → Direction → Option ℕ → Option ℕ → Option ℕ → Action Corporate CorporateAccount
change_locked account_id amount direction reference user_id department = do
  account ← or_throw (← gets (λ c. lookup account_id c.accounts)) corporate_account_not_found
  throw_if (not account.is_active) corporate_inactive
  throw_if (is_debit direction && ltb_ℤ account.budget_balance amount) insufficient_corporate_budget
  let balance =
      if is_debit direction
      then account.budget_balance -ℤ amount
      else account.budget_balance +ℤ amount
  let saved : CorporateAccount = record account { budget_balance = balance }
  now ← gets (λ c. c.now)
  let row : CorporateTransaction = record {
    corporate_account_id = account_id;
    direction = direction;
    amount = amount;
    balance_after = balance;
    reference_id = reference;
    employee_user_id = user_id;
    department = department;
    created_at = now;
  }
  modify
      λ c. record c { accounts = save saved c.accounts; transactions = c.transactions ++ row ∷ [] }
  pure saved

-- applyLedgerChange
unfoldable pub apply_ledger_change :
    ℕ → ℤ → Direction → Option ℕ → Option ℕ → Option ℕ → Action Corporate CorporateAccount
apply_ledger_change account_id amount direction reference user_id department = do
  throw_if (leb_ℤ amount (pos 0)) corporate_amount_not_positive
  transaction (change_locked account_id amount direction reference user_id department)

-- topUp
unfoldable pub top_up : ℕ → ℤ → Action Corporate CorporateAccount
top_up account_id amount = apply_ledger_change account_id amount credit_direction none none none

-- debitForRide
unfoldable pub debit_for_ride : ℕ → ℤ → ℕ → ℕ → Action Corporate CorporateAccount
debit_for_ride account_id amount ride_id user_id = do
  employee ← gets (λ c. employee_of user_id c.employees)
  let department : Option ℕ = elim employee [ none ↦ none | some e ↦ e.department ]
  apply_ledger_change account_id amount debit_direction (some ride_id) (some user_id) department

-- flagRideForApprovalIfNeeded
unfoldable pub flag_ride_for_approval :
    ℕ → CorporateAccount → ℕ → ℕ → ℤ → Action Corporate (Unit {0})
flag_ride_for_approval id account ride_id user_id fare = elim account.requires_approval_above_fare [
  | none ↦ pure tt
  | some limit ↦
      if leb_ℤ fare limit
      then pure tt
      else modify λ c. record c {
        approvals =
            save
              (record {
                id = id;
                corporate_account_id = account.id;
                ride_id = ride_id;
                employee_user_id = user_id;
                fare_amount = fare;
                status = pending;
                reviewed_by = none;
              })
              c.approvals;
      }
]

-- reviewApproval
unfoldable pub review_approval : ℕ → ℕ → ℕ → ApprovalStatus → Action Corporate CorporateRideApproval
review_approval account_id approval_id reviewer_id status = do
  found ← gets (λ c.
      find_first (λ a. a.id == approval_id && a.corporate_account_id == account_id) c.approvals)
  approval ← or_throw found approval_not_found
  throw_if (not (is_pending approval.status)) already_reviewed
  let saved : CorporateRideApproval = record approval {
    status = status;
    reviewed_by = some reviewer_id;
  }
  modify (λ c. record c { approvals = save saved c.approvals })
  pure saved

-- setActive
unfoldable pub set_active : ℕ → Bool → Action Corporate CorporateAccount
set_active id is_active = do
  account ← find_by_id id
  let saved : CorporateAccount = record account { is_active = is_active }
  modify (λ c. record c { accounts = save saved c.accounts })
  pure saved
