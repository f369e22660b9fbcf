-- ===== src/Withdrawals.antt =====
-- src/wallets/withdrawals.service.ts with entities/withdrawal-request.entity.ts and
-- entities/bank-account.entity.ts: payouts to a bank account, in two steps with a one-time code, and
-- the answers of the payment provider. The provider (Paystack), the SMS provider, the clock and the
-- generated ids are arguments.
pub mod Entities
pub mod Funds
pub mod Steps
mod Tests
use ryda.Base.{
  ℕ, ◌+◌, ◌*◌, ◌==◌, ltb, Bool, true, false, not, ◌&&◌, ◌||◌, is_some, Option, none, some, List, [],
  ◌∷◌, ◌++◌, map, if◌then◌else◌, ℤ, pos, ltb_ℤ, Action, Result, ok, err, ◌>>=◌, ◌>>◌, pure, throw,
  gets, or_throw, throw_if, modify, lookup, save, find_first, length, phone_not_verified,
  withdrawal_pending, below_minimum, withdrawal_blocked, not_your_account, payouts_not_configured,
  insufficient_balance, request_not_found, not_your_request, request_settled, request_expired,
  no_phone, bank_account_not_found, withdrawal_refunded, user_not_found,
}
use ryda.Settings.{Settings}
use ryda.Users.{User, user_keyed, find_by_id}
use ryda.Wallets.{get_by_user_id, credit, debit}
use ryda.Wallets.Entities.{Bank, Wallet, withdrawal}
use ryda.Otp.{OtpCode, Config, send, verify, wallet_withdrawal}
use ryda.Fraud.{
  Fresh, RiskBand, critical_risk, high_risk, raise_flag, assess, critical, high,
  critical_risk_withdrawal_blocked, high_risk_withdrawal_attempt,
}
use Entities.{
  BankAccount, account_keyed, Status, pending, processing, completed, failed, expired, is_pending,
  is_processing, Withdrawal, withdrawal_keyed, Payouts, Event, withdrawal_completed,
  withdrawal_failed, on_bank, on_codes, on_users,
}

-- 10 minutes
abbrev pub request_ttl : ℕ
request_ttl = 10 * 60 * 1000

-- `existingPending && existingPending.expiresAt && existingPending.expiresAt > new Date()`
abbrev pub is_live : ℕ → Option Withdrawal → Bool
is_live now none = false
is_live now (some w) = elim w.expires_at [ none ↦ false | some e ↦ ltb now e ]

-- `!request.expiresAt || request.expiresAt < new Date()`
abbrev pub is_over : ℕ → Withdrawal → Bool
is_over now w = elim w.expires_at [ none ↦ true | some e ↦ ltb e now ]

abbrev pub save_request : Withdrawal → Action Payouts (Unit {0})
save_request w = modify (λ p. record p { requests = save w p.requests })

-- What stands around a call: the settings of points and of money, and what the providers answer.
pub record Context : Type 0 where
  pub fresh : Fresh
  pub points : Settings ℕ
  pub min_amount : ℤ
  pub configured : Bool
  pub otp : Config
  pub code : ℕ
  pub sms : Option Bool

abbrev pub raise : Context → Bool → ℕ → Action Payouts (Unit {0})
raise c blocked user_id = modify λ p. record p {
  flags =
      raise_flag c.fresh
        (if blocked then critical_risk_withdrawal_blocked else high_risk_withdrawal_attempt) user_id
        none (if blocked then critical else high) p.flags;
}

-- The graduated response to the requester's risk.
unfoldable pub screen_risk : Context → ℕ → RiskBand → Action Payouts (Unit {0})
screen_risk c user_id critical_risk = raise c true user_id >> throw withdrawal_blocked
screen_risk c user_id high_risk = raise c false user_id
screen_risk c user_id _ = pure tt

abbrev pub owned_account : ℕ → ℕ → List BankAccount → Option BankAccount
owned_account user_id id accounts = elim (lookup id accounts) [
  | none ↦ none
  | some a ↦ if a.user_id == user_id then some a else none
]

unfoldable pub initiate_withdrawal : Context → ℕ → ℕ → ℤ → Action Payouts Withdrawal
initiate_withdrawal c user_id bank_account_id amount = do
  user ← on_users (find_by_id user_id)
  throw_if (not (is_some user.phone && user.is_phone_verified)) phone_not_verified
  existing ← gets (λ p. find_first (λ w. w.user_id == user_id && is_pending w.status) p.requests)
  throw_if (is_live c.fresh.now existing) withdrawal_pending
  throw_if (ltb_ℤ amount c.min_amount) below_minimum
  risk ← gets (λ p. assess c.points c.fresh.now user_id p.flags)
  screen_risk c user_id risk.1
  account ←
      or_throw (← gets (λ p. owned_account user_id bank_account_id p.accounts)) not_your_account
  throw_if (not c.configured) payouts_not_configured
  wallet ← on_bank (get_by_user_id user_id)
  throw_if (ltb_ℤ wallet.balance amount) insufficient_balance
  let request : Withdrawal = record {
    id = c.fresh.id;
    user_id = user_id;
    bank_account_id = account.id;
    amount = amount;
    status = pending;
    reference = c.fresh.id;
    transfer_code = none;
    expires_at = some (c.fresh.now + request_ttl);
  }
  save_request request
  phone ← or_throw user.phone phone_not_verified
  on_codes (send c.otp c.fresh.now c.fresh.id c.code c.sms phone wallet_withdrawal)
  pure request

-- After the debit: `transfer` is what the provider's initiate call returned, `none` if it threw.
unfoldable pub start_transfer :
    Settings ℤ → Option ℕ → Wallet → Withdrawal → Action Payouts Withdrawal
start_transfer s (some code) wallet request = do
  let started : Withdrawal = record request { transfer_code = some code }
  save_request started
  pure started
start_transfer s none wallet request = do
  on_bank (credit s wallet.id request.amount withdrawal (some request.reference))
  save_request (record request { status = failed })
  throw withdrawal_refunded

-- The first checks of confirmWithdrawal: who may confirm what, and when.
unfoldable pub check_confirmable : ℕ → ℕ → ℕ → Action Payouts Withdrawal
check_confirmable now user_id request_id = do
  request ← or_throw (← gets (λ p. lookup request_id p.requests)) request_not_found
  throw_if (not (request.user_id == user_id)) not_your_request
  throw_if (not (is_pending request.status)) request_settled
  (if is_over now request
      then save_request (record request { status = expired }) >> throw request_expired
      else pure request)

-- Its check of the code that was sent to the user's phone.
unfoldable pub check_code : ℕ → ℕ → ℕ → Action Payouts (Unit {0})
check_code now user_id otp_code = do
  user ← on_users (find_by_id user_id)
  phone ← or_throw user.phone no_phone
  on_codes (verify now phone otp_code wallet_withdrawal)

-- The debit, and then the transfer.
unfoldable pub charge : Settings ℤ → Option ℕ → Wallet → Withdrawal → Action Payouts Withdrawal
charge s transfer wallet request = do
  on_bank (debit wallet.id request.amount withdrawal (some request.reference))
  let started : Withdrawal = record request { status = processing }
  save_request started
  start_transfer s transfer wallet started

-- The rest of confirmWithdrawal, after the code.
unfoldable pub pay_out : Settings ℤ → Option ℕ → ℕ → Withdrawal → Action Payouts Withdrawal
pay_out s transfer user_id request = do
  account ←
      or_throw (← gets (λ p. lookup request.bank_account_id p.accounts)) bank_account_not_found
  wallet ← on_bank (get_by_user_id user_id)
  charge s transfer wallet request

unfoldable pub confirm_withdrawal :
    Settings ℤ → ℕ → Option ℕ → ℕ → ℕ → ℕ → Action Payouts Withdrawal
confirm_withdrawal s now transfer user_id request_id otp_code = do
  request ← check_confirmable now user_id request_id
  check_code now user_id otp_code
  pay_out s transfer user_id request

abbrev pub emit : Event → Action Payouts (Unit {0})
emit e = modify (λ p. record p { events = p.events ++ e ∷ [] })

-- What the webhook does with a request that is in flight.
unfoldable pub settle : Settings ℤ → Bool → Withdrawal → Action Payouts (Unit {0})
settle s true request = do
  save_request (record request { status = completed })
  emit (withdrawal_completed request.user_id request.amount)
settle s false request = do
  wallet ← on_bank (get_by_user_id request.user_id)
  on_bank (credit s wallet.id request.amount withdrawal (some request.reference))
  save_request (record request { status = failed })
  emit (withdrawal_failed request.user_id request.amount)

unfoldable pub handle_transfer_webhook : Settings ℤ → ℕ → Bool → Action Payouts (Unit {0})
handle_transfer_webhook s reference succeeded p =
    elim (find_first (λ w. w.reference == reference) p.requests) [
      | none ↦ (ok tt, p)
      | some request ↦
          if is_processing request.status then settle s succeeded request p else (ok tt, p)
    ]

-- `"expiresAt" < :now` is not true of a NULL.
abbrev pub expire_one : ℕ → Withdrawal → Withdrawal
expire_one now w =
    if is_pending w.status && elim w.expires_at [ none ↦ false | some e ↦ ltb e now ]
    then record w { status = expired }
    else w

-- expireStaleRequests
unfoldable pub expire_stale_requests : ℕ → Action Payouts (Unit {0})
expire_stale_requests now = modify (λ p. record p { requests = map (expire_one now) p.requests })
