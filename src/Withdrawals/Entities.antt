-- ===== src/Withdrawals/Entities.antt =====
-- The rows of a payout and the state that its methods work on: the wallets, the one-time codes, the
-- users, the bank accounts, the requests, the flags raised, and the events emitted.
use ryda.Base.{ℕ, ℤ, Bool, true, false, Option, List, Keyed, Action}
use ryda.Users.{User}
use ryda.Wallets.Entities.{Bank}
use ryda.Otp.{OtpCode}
use ryda.Fraud.{Flag}

pub record BankAccount : Type 0 where
  pub id : ℕ
  pub user_id : ℕ
  pub recipient_code : ℕ
  pub is_default : Bool

instance abbrev pub account_keyed : Keyed BankAccount
account_keyed = record { key = λ a. a.id }

-- WithdrawalStatus
pub data Status : Type 0 where
  pending processing completed failed expired : Status

abbrev pub is_pending : Status → Bool
is_pending pending = true
is_pending _ = false

abbrev pub is_processing : Status → Bool
is_processing processing = true
is_processing _ = false

-- WithdrawalRequest
pub record Withdrawal : Type 0 where
  pub id : ℕ
  pub user_id : ℕ
  pub bank_account_id : ℕ
  pub amount : ℤ
  pub status : Status
  pub reference : ℕ
  pub transfer_code : Option ℕ
  pub expires_at : Option ℕ

instance abbrev pub withdrawal_keyed : Keyed Withdrawal
withdrawal_keyed = record { key = λ w. w.id }

pub data Event : Type 0 where
  withdrawal_completed withdrawal_failed : ℕ → ℤ → Event

pub record Payouts : Type 0 where
  pub bank : Bank
  pub codes : List OtpCode
  pub users : List User
  pub accounts : List BankAccount
  pub requests : List Withdrawal
  pub flags : List Flag
  pub events : List Event

-- A call of another service works on its part of the state.
module _ {A : Type 0} where
  abbrev pub on_bank : Action Bank A → Action Payouts A
  on_bank m p = let (r, b) = m p.bank in (r, record p { bank = b })

  abbrev pub on_codes : Action (List OtpCode) A → Action Payouts A
  on_codes m p = let (r, c) = m p.codes in (r, record p { codes = c })

  abbrev pub on_users : Action (List User) A → Action Payouts A
  on_users m p = let (r, u) = m p.users in (r, record p { users = u })
