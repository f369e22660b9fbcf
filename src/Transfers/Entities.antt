-- ===== src/Transfers/Entities.antt =====
-- src/wallets/entities/wallet-transfer-request.entity.ts, and the state that the transfer methods work
-- on: the wallets, the one-time codes, the users and the requests.
use ryda.Base.{ℕ, ℤ, Bool, true, false, List, Keyed, Action}
use ryda.Users.{User}
use ryda.Wallets.Entities.{Bank}
use ryda.Otp.{OtpCode}
use ryda.Fraud.{Flag}

-- WalletTransferStatus
pub data Status : Type 0 where
  pending completed expired cancelled : Status

abbrev pub is_pending : Status → Bool
is_pending pending = true
is_pending _ = false

-- WalletTransferRequest
pub record TransferRequest : Type 0 where
  pub id : ℕ
  pub sender_id : ℕ
  pub recipient_id : ℕ
  pub amount : ℤ
  pub fee : ℤ
  pub status : Status
  pub expires_at : ℕ

instance abbrev pub request_keyed : Keyed TransferRequest
request_keyed = record { key = λ r. r.id }

pub record Transfers : Type 0 where
  pub bank : Bank
  pub codes : List OtpCode
  pub users : List User
  pub requests : List TransferRequest
  pub flags : List Flag

module _ {A : Type 0} where
  abbrev pub on_bank : Action Bank A → Action Transfers A
  on_bank m t = let (r, b) = m t.bank in (r, record t { bank = b })

  abbrev pub on_codes : Action (List OtpCode) A → Action Transfers A
  on_codes m t = let (r, c) = m t.codes in (r, record t { codes = c })

  abbrev pub on_users : Action (List User) A → Action Transfers A
  on_users m t = let (r, u) = m t.users in (r, record t { users = u })
