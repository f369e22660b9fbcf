-- ===== src/Transfers.antt =====
-- src/wallets/wallet-transfers.service.ts: sending money to another user, in two steps with a one-time
-- code. The clock, the start of the day, the generated ids and the SMS provider are arguments; the
-- masked names that a response shows are left out.
pub mod Entities
pub mod Requests
pub mod Confirm
mod Tests
use ryda.Base.{
  ℕ, ◌+◌, ◌-◌, ◌*◌, ◌==◌, ltb, Bool, true, false, not, ◌&&◌, is_some, Option, none, some, List, [],
  ◌∷◌, map, length, keep, if◌then◌else◌, ℤ, pos, ◌+ℤ◌, ltb_ℤ, Action, Result, ok, err, ◌>>=◌, ◌>>◌,
  pure, throw, gets, or_throw, throw_if, modify, lookup, save, find_first, phone_not_verified,
  transfer_pending, no_account_found, transfer_to_self, below_minimum, above_maximum,
  above_daily_limit, insufficient_balance, request_not_found, not_your_request, request_settled,
  request_expired, no_phone,
}
use ryda.Settings.{
  Settings, get_number, wallet_transfer_min, wallet_transfer_max_per_transaction,
  wallet_transfer_max_daily, wallet_transfer_fee,
}
use ryda.Users.{User, user_keyed, find_by_id, find_by_phone, find_by_email}
use ryda.Wallets.{get_by_user_id, transfer}
use ryda.Wallets.Entities.{Bank, Wallet, WalletTransaction, is_transfer_sent}
use ryda.Otp.{OtpCode, Config, send, verify, wallet_transfer}
use ryda.Fraud.{Fresh, check_wallet_velocity}
use Entities.{
  Status, pending, completed, expired, is_pending, TransferRequest, request_keyed, Transfers,
  on_bank, on_codes, on_users,
}

-- TRANSFER_REQUEST_TTL_MINUTES
abbrev pub request_ttl : ℕ
request_ttl = 10 * 60 * 1000

-- InitiateTransferDto; the e-mail address is preferred.
pub record Order : Type 0 where
  pub recipient_email : Option ℕ
  pub recipient_phone : ℕ
  pub amount : ℤ

-- What stands around a call.
pub record Context : Type 0 where
  pub fresh : Fresh
  pub start_of_day : ℕ
  pub settings : Settings ℤ
  pub otp : Config
  pub code : ℕ
  pub sms : Option Bool

-- `existingPending && existingPending.expiresAt > new Date()`
abbrev pub is_live : ℕ → Option TransferRequest → Bool
is_live now none = false
is_live now (some r) = ltb now r.expires_at

-- `findOne({ where: { senderId, status: PENDING } })`
abbrev pub pending_of : ℕ → List TransferRequest → Option TransferRequest
pending_of sender_id = find_first (λ r. r.sender_id == sender_id && is_pending r.status)

unfoldable pub find_recipient : Order → List User → Option User
find_recipient order users = elim order.recipient_email [
  | none ↦ find_by_phone order.recipient_phone users
  | some email ↦ find_by_email email users
]

-- The rows that sumTodaysSentTransfers reads; `MoreThan(since)`
abbrev pub sent_since : ℕ → ℕ → WalletTransaction → Bool
sent_since wallet_id since t =
    t.wallet_id == wallet_id && is_transfer_sent t.category && ltb since t.created_at

abbrev pub sum_amounts : List WalletTransaction → ℤ
sum_amounts [] = pos 0
sum_amounts (t ∷ ts) = t.amount +ℤ sum_amounts ts

unfoldable pub sum_todays_sent_transfers : ℕ → ℕ → Bank → ℤ
sum_todays_sent_transfers start_of_day wallet_id b =
    sum_amounts (keep (sent_since wallet_id start_of_day) b.transactions)

-- The limits of `initiate`, in their order; the defaults are in kobo.
unfoldable pub check_limits : Settings ℤ → ℤ → ℤ → Wallet → Action Transfers ℤ
check_limits s amount today_sent wallet = do
  let fee = get_number s wallet_transfer_fee (pos 0)
  throw_if (ltb_ℤ amount (get_number s wallet_transfer_min (pos 10000))) below_minimum
  throw_if (ltb_ℤ (get_number s wallet_transfer_max_per_transaction (pos 50000000)) amount)
      above_maximum
  throw_if (ltb_ℤ (get_number s wallet_transfer_max_daily (pos 100000000)) (today_sent +ℤ amount))
      above_daily_limit
  throw_if (ltb_ℤ wallet.balance (amount +ℤ fee)) insufficient_balance
  pure fee

-- The checks of `initiate` on its sender.
unfoldable pub check_sender : ℕ → ℕ → Action Transfers User
check_sender now sender_id = do
  sender ← on_users (find_by_id sender_id)
  throw_if (not (is_some sender.phone && sender.is_phone_verified)) phone_not_verified
  existing ← gets (λ t. pending_of sender_id t.requests)
  throw_if (is_live now existing) transfer_pending
  pure sender

unfoldable pub initiate : Context → ℕ → Order → Action Transfers TransferRequest
unfolding check_sender
initiate c sender_id order = do
  sender ← check_sender c.fresh.now sender_id
  recipient ← or_throw (← gets (λ t. find_recipient order t.users)) no_account_found
  throw_if (recipient.id == sender_id) transfer_to_self
  sender_wallet ← on_bank (get_by_user_id sender_id)
  recipient_wallet ← on_bank (get_by_user_id recipient.id)
  today_sent ← gets (λ t. sum_todays_sent_transfers c.start_of_day sender_wallet.id t.bank)
  fee ← check_limits c.settings order.amount today_sent sender_wallet
  let request : TransferRequest = record {
    id = c.fresh.id;
    sender_id = sender_id;
    recipient_id = recipient.id;
    amount = order.amount;
    fee = fee;
    status = pending;
    expires_at = c.fresh.now + request_ttl;
  }
  modify (λ t. record t { requests = save request t.requests })
  phone ← or_throw sender.phone phone_not_verified
  on_codes (send c.otp c.fresh.now c.fresh.id c.code c.sms phone wallet_transfer)
  pure request

abbrev pub save_request : TransferRequest → Action Transfers (Unit {0})
save_request r = modify (λ t. record t { requests = save r t.requests })

-- The first checks of `confirm`.
unfoldable pub check_confirmable : ℕ → ℕ → ℕ → Action Transfers TransferRequest
check_confirmable now sender_id request_id = do
  request ← or_throw (← gets (λ t. lookup request_id t.requests)) request_not_found
  throw_if (not (request.sender_id == sender_id)) not_your_request
  throw_if (not (is_pending request.status)) request_settled
  (if ltb request.expires_at now
      then save_request (record request { status = expired }) >> throw request_expired
      else pure request)

unfoldable pub check_code : ℕ → ℕ → ℕ → Action Transfers (Unit {0})
check_code now sender_id otp_code = do
  sender ← on_users (find_by_id sender_id)
  phone ← or_throw sender.phone no_phone
  on_codes (verify now phone otp_code wallet_transfer)

-- Transfers of the last hour, which the fraud check is given.
abbrev pub recent_count : ℕ → ℕ → Bank → ℕ
recent_count now wallet_id b =
    length (keep (sent_since wallet_id (now - 60 * 60 * 1000)) b.transactions)

-- The rest of `confirm`, after the code; the wallet is that of the result.
unfoldable pub move : Fresh → TransferRequest → Action Transfers Wallet
move fresh request = do
  sender_wallet ← on_bank (get_by_user_id request.sender_id)
  recipient_wallet ← on_bank (get_by_user_id request.recipient_id)
  recipient ← on_users (find_by_id request.recipient_id)
  moved ←
      on_bank
        (transfer sender_wallet.id recipient_wallet.id request.amount request.fee (some request.id))
  save_request (record request { status = completed })
  count ← gets (λ t. recent_count fresh.now sender_wallet.id t.bank)
  modify (λ t. record t { flags = check_wallet_velocity fresh request.sender_id count t.flags })
  pure moved.0

unfoldable pub confirm : Fresh → ℕ → ℕ → ℕ → Action Transfers Wallet
confirm fresh sender_id request_id otp_code = do
  request ← check_confirmable fresh.now sender_id request_id
  check_code fresh.now sender_id otp_code
  move fresh request

abbrev pub expire_one : ℕ → TransferRequest → TransferRequest
expire_one now r =
    if is_pending r.status && ltb r.expires_at now then record r { status = expired } else r

-- expireStaleRequests
unfoldable pub expire_stale_requests : ℕ → Action Transfers (Unit {0})
expire_stale_requests now = modify (λ t. record t { requests = map (expire_one now) t.requests })
