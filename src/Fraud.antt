-- ===== src/Fraud.antt =====
-- src/fraud/fraud.service.ts, src/fraud/risk-engine.service.ts and src/fraud/entities/fraud-flag.entity.ts: the
-- flags that heuristics raise, and the score and band that they add up to. The counts that the
-- checks are given, the clock and the generated ids are arguments; weights are whole points.
pub mod Score
mod Tests
use ryda.Base.{
  ℕ, ◌+◌, ◌-◌, ◌*◌, ltb, leb, ◌==◌, Bool, true, false, ◌&&◌, ◌||◌, Option, none, some, List, [],
  ◌∷◌, ◌++◌, if◌then◌else◌, Action, ◌>>=◌, ◌>>◌, pure, gets, or_throw, modify, Keyed, lookup, save,
  keep, some_of, flag_not_found,
}
use ryda.Settings.{
  Settings, get_number, risk_lookback_days, risk_weight_low, risk_weight_medium, risk_weight_high,
  risk_weight_critical, risk_threshold_medium, risk_threshold_high, risk_threshold_critical,
}

-- FraudFlagType
pub data FlagType : Type 0 where
  duplicate_account gps_spoof referral_abuse multiple_accounts_same_device new_device_login :
      FlagType
  high_risk_withdrawal_attempt critical_risk_withdrawal_blocked repeated_payment_failures : FlagType
  multiple_cards_added repeated_promo_redemption repeated_cancellations excessive_refunds : FlagType
  unusual_wallet_velocity chargeback_history : FlagType

-- FraudFlagSeverity
pub data Severity : Type 0 where
  low medium high critical : Severity

-- FraudFlagStatus
pub data Status : Type 0 where
  opened escalated reviewed dismissed : Status

pub record Flag : Type 0 where
  pub id : ℕ
  pub type : FlagType
  pub user_id : ℕ
  pub related_user_id : Option ℕ
  pub severity : Severity
  pub status : Status
  pub reviewed_by : Option ℕ
  pub created_at : ℕ

instance abbrev pub flag_keyed : Keyed Flag
flag_keyed = record { key = λ f. f.id }

-- The clock and the id of the row that a call may add.
pub record Fresh : Type 0 where
  pub now : ℕ
  pub id : ℕ

-- raiseFlag
unfoldable pub raise_flag : Fresh → FlagType → ℕ → Option ℕ → Severity → List Flag → List Flag
raise_flag fresh type user_id related severity flags =
    flags
    ++ record {
      id = fresh.id;
      type = type;
      user_id = user_id;
      related_user_id = related;
      severity = severity;
      status = opened;
      reviewed_by = none;
      created_at = fresh.now;
    }
      ∷ []

-- DeviceFingerprint
pub record Device : Type 0 where
  pub user_id : ℕ
  pub fingerprint : ℕ

abbrev pub shares_device : ℕ → ℕ → List Device → Bool
shares_device referrer_id referee_id devices =
    let theirs = keep (λ d. d.user_id == referrer_id) devices in
    some_of (λ d. d.user_id == referee_id && some_of (λ t. t.fingerprint == d.fingerprint) theirs)
      devices

-- checkReferralAbuse
unfoldable pub check_referral_abuse : Fresh → List Device → ℕ → ℕ → List Flag → List Flag
check_referral_abuse fresh devices referrer_id referee_id flags =
    if shares_device referrer_id referee_id devices
    then raise_flag fresh referral_abuse referee_id (some referrer_id) high flags
    else flags

-- The shape of the seven pattern checks: nothing below `least`, HIGH from `many` on.
abbrev pub check_count : ℕ → ℕ → FlagType → Fresh → ℕ → ℕ → List Flag → List Flag
check_count least many type fresh user_id count flags =
    if ltb count least
    then flags
    else raise_flag fresh type user_id none (if leb many count then high else medium) flags

unfoldable pub check_payment_failure_pattern : Fresh → ℕ → ℕ → List Flag → List Flag
check_payment_failure_pattern = check_count 3 5 repeated_payment_failures

unfoldable pub check_multiple_cards_added : Fresh → ℕ → ℕ → List Flag → List Flag
check_multiple_cards_added = check_count 3 5 multiple_cards_added

unfoldable pub check_promo_redemption_pattern : Fresh → ℕ → ℕ → List Flag → List Flag
check_promo_redemption_pattern = check_count 4 8 repeated_promo_redemption

unfoldable pub check_repeated_cancellations : Fresh → ℕ → ℕ → List Flag → List Flag
check_repeated_cancellations = check_count 4 8 repeated_cancellations

unfoldable pub check_excessive_refunds : Fresh → ℕ → ℕ → List Flag → List Flag
check_excessive_refunds = check_count 3 6 excessive_refunds

unfoldable pub check_wallet_velocity : Fresh → ℕ → ℕ → List Flag → List Flag
check_wallet_velocity = check_count 5 10 unusual_wallet_velocity

unfoldable pub check_chargeback_history : Fresh → ℕ → ℕ → List Flag → List Flag
check_chargeback_history = check_count 1 2 chargeback_history

-- reviewFlag
unfoldable pub review_flag : ℕ → ℕ → Status → Action (List Flag) Flag
review_flag id reviewer_user_id status = do
  flag ← or_throw (← gets (λ flags. lookup id flags)) flag_not_found
  let flag' : Flag = record flag { status = status; reviewed_by = some reviewer_user_id }
  modify (save flag')
  pure flag'

-- RiskBand
pub data RiskBand : Type 0 where
  low_risk medium_risk high_risk critical_risk : RiskBand

-- loadWeights, over DEFAULT_WEIGHTS
unfoldable pub weight : Settings ℕ → Severity → ℕ
weight s low = get_number s risk_weight_low 5
weight s medium = get_number s risk_weight_medium 15
weight s high = get_number s risk_weight_high 35
weight s critical = get_number s risk_weight_critical 70

-- bandForScore
unfoldable pub band_for_score : Settings ℕ → ℕ → RiskBand
band_for_score s score =
    if leb (get_number s risk_threshold_critical 90) score
    then critical_risk
    else if leb (get_number s risk_threshold_high 50) score
    then high_risk
    else if leb (get_number s risk_threshold_medium 20) score
    then medium_risk
    else low_risk

-- `status: OPEN` or `status: REVIEWED`
abbrev pub is_counted : Status → Bool
is_counted opened = true
is_counted escalated = false
is_counted reviewed = true
is_counted dismissed = false

-- The query's WHERE clause; `MoreThan(since)` with since = now - lookback.
abbrev pub counts : Settings ℕ → ℕ → ℕ → Flag → Bool
counts s now user_id f =
    f.user_id == user_id
    && is_counted f.status
    && ltb now (f.created_at + get_number s risk_lookback_days 30 * 86400000)

-- `reasons.reduce((sum, r) => sum + r.weight, 0)`
abbrev pub sum_weights : Settings ℕ → List Flag → ℕ
sum_weights s [] = 0
sum_weights s (f ∷ flags) = weight s f.severity + sum_weights s flags

unfoldable pub score_of : Settings ℕ → ℕ → ℕ → List Flag → ℕ
score_of s now user_id flags = sum_weights s (keep (counts s now user_id) flags)

-- assess
unfoldable pub assess : Settings ℕ → ℕ → ℕ → List Flag → ℕ × RiskBand
assess s now user_id flags =
    let score = score_of s now user_id flags in (score, band_for_score s score)
