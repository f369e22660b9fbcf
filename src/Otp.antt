-- ===== src/Otp.antt =====
-- src/otp/otp.service.ts with otp-code.entity.ts: one-time codes by destination and purpose. The state is
-- the table of codes; the clock, the id and the digits that are drawn, and the answer of the SMS
-- provider are arguments. Destinations and codes are numbers, since they are only compared.
pub mod Attempts
mod Tests
use ryda.Base.{
  ℕ, suc, ◌+◌, ◌*◌, ltb, leb, ◌==◌, Bool, true, false, not, ◌&&◌, Option, none, some, List, ◌++◌,
  [], ◌∷◌, if◌then◌else◌, Action, ◌>>=◌, ◌>>◌, pure, throw, modify, Keyed, save, find_last, Result,
  ok, err, invalid_or_expired_otp, too_many_attempts,
}

-- OtpPurpose
pub data Purpose : Type 0 where
  phone_verification wallet_transfer wallet_withdrawal : Purpose

abbrev pub same_purpose : Purpose → Purpose → Bool
same_purpose phone_verification phone_verification = true
same_purpose wallet_transfer wallet_transfer = true
same_purpose wallet_withdrawal wallet_withdrawal = true
same_purpose _ _ = false

pub record OtpCode : Type 0 where
  pub id : ℕ
  pub destination : ℕ
  pub purpose : Purpose
  pub code : ℕ
  pub is_used : Bool
  pub attempt_count : ℕ
  pub expires_at : ℕ

instance abbrev pub otp_keyed : Keyed OtpCode
otp_keyed = record { key = λ o. o.id }

abbrev pub max_attempts : ℕ
max_attempts = 5

-- otp.ttlSeconds and otp.forceDevOnlyCode of the configuration
pub record Config : Type 0 where
  pub ttl_seconds : ℕ
  pub force_dev_only_code : Bool

pub record Sent : Type 0 where
  pub dev_only_code : Option ℕ
  pub expires_in_seconds : ℕ
  pub delivered : Bool

-- `sms` is `none` where the provider is not configured, else whether it took the message.
abbrev pub delivered_by : Option Bool → Bool
delivered_by none = false
delivered_by (some success) = success

unfoldable pub send : Config → ℕ → ℕ → ℕ → Option Bool → ℕ → Purpose → Action (List OtpCode) Sent
send config now id code sms destination purpose codes =
    let row : OtpCode = record {
      id = id;
      destination = destination;
      purpose = purpose;
      code = code;
      is_used = false;
      attempt_count = 0;
      expires_at = now + config.ttl_seconds * 1000;
    } in
    let delivered = delivered_by sms in
    let shown =
      if config.force_dev_only_code then some code else if delivered then none else some code in
    pure
      (record {
        dev_only_code = shown;
        expires_in_seconds = config.ttl_seconds;
        delivered = delivered;
      })
      (codes ++ row ∷ [])

-- `where: { destination, purpose, isUsed: false }`
abbrev pub is_pending : ℕ → Purpose → OtpCode → Bool
is_pending destination purpose o =
    o.destination == destination && same_purpose o.purpose purpose && not o.is_used

-- What `verify` does with the latest pending code.
unfoldable pub check_latest : ℕ → ℕ → OtpCode → Action (List OtpCode) (Unit {0})
check_latest now code latest =
    if ltb latest.expires_at now
    then throw invalid_or_expired_otp
    else if leb max_attempts latest.attempt_count
    then throw too_many_attempts
    else if not (latest.code == code)
    then modify (save (record latest { attempt_count = suc latest.attempt_count }))
      >> throw invalid_or_expired_otp
    else modify (save (record latest { is_used = true }))

unfoldable pub verify : ℕ → ℕ → ℕ → Purpose → Action (List OtpCode) (Unit {0})
verify now destination code purpose codes =
    elim (find_last (is_pending destination purpose) codes) [
      | none ↦ (err invalid_or_expired_otp, codes)
      | some latest ↦ check_latest now code latest codes
    ]
