-- ===== src/Corporate/Entities.antt =====
-- src/corporate/entities/*.entity.ts and the state that the corporate methods work on. Amounts are whole
-- kobo; cities and departments are numbers, since they are only compared.
use ryda.Base.{ℕ, ℤ, Bool, true, false, Option, List, Keyed}
use ryda.Wallets.Entities.{Direction}
use ryda.Trips.{RideCategory}

pub record CorporateAccount : Type 0 where
  pub id : ℕ
  pub owner_user_id : ℕ
  pub budget_balance : ℤ
  pub is_active : Bool
  pub allowed_categories : Option (List RideCategory)
  pub max_fare_per_ride : Option ℤ
  pub operating_hours_start : Option ℕ
  pub operating_hours_end : Option ℕ
  pub allowed_cities : Option (List ℕ)
  pub requires_approval_above_fare : Option ℤ

instance abbrev pub account_keyed : Keyed CorporateAccount
account_keyed = record { key = λ a. a.id }

pub record CorporateEmployee : Type 0 where
  pub id : ℕ
  pub corporate_account_id : ℕ
  pub user_id : ℕ
  pub is_active : Bool
  pub department : Option ℕ
  pub monthly_spend_limit : Option ℤ

instance abbrev pub employee_keyed : Keyed CorporateEmployee
employee_keyed = record { key = λ e. e.id }

pub record CorporateTransaction : Type 0 where
  pub corporate_account_id : ℕ
  pub direction : Direction
  pub amount : ℤ
  pub balance_after : ℤ
  pub reference_id : Option ℕ
  pub employee_user_id : Option ℕ
  pub department : Option ℕ
  pub created_at : ℕ

-- CorporateApprovalStatus
pub data ApprovalStatus : Type 0 where
  pending approved rejected : ApprovalStatus

abbrev pub is_pending : ApprovalStatus → Bool
is_pending pending = true
is_pending _ = false

pub record CorporateRideApproval : Type 0 where
  pub id : ℕ
  pub corporate_account_id : ℕ
  pub ride_id : ℕ
  pub employee_user_id : ℕ
  pub fare_amount : ℤ
  pub status : ApprovalStatus
  pub reviewed_by : Option ℕ

instance abbrev pub approval_keyed : Keyed CorporateRideApproval
approval_keyed = record { key = λ a. a.id }

pub record CorporateInvoice : Type 0 where
  pub id : ℕ
  pub corporate_account_id : ℕ
  pub period_start : ℕ
  pub period_end : ℕ
  pub opening_balance : ℤ
  pub closing_balance : ℤ
  pub total_debits : ℤ
  pub total_credits : ℤ
  pub transaction_count : ℕ

instance abbrev pub invoice_keyed : Keyed CorporateInvoice
invoice_keyed = record { key = λ i. i.id }

pub record Corporate : Type 0 where
  pub accounts : List CorporateAccount
  pub employees : List CorporateEmployee
  pub transactions : List CorporateTransaction  -- in the order of their creation
  pub approvals : List CorporateRideApproval
  pub invoices : List CorporateInvoice
  pub now : ℕ
