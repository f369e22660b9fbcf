-- ===== src/Fraud/Score.antt =====
-- How the score and the band move with the flags.
use ryda.Base.{
  ℕ, ◌+◌, ◌≤◌, ◌<◌, ◌≡◌, refl, true, Option, none, some, List, [], ◌∷◌, ◌++◌, arith, ◌==◌,
  if◌then◌else◌, lookup, lookup-key_of, save, keep, after, keep-append,
}
use ryda.Fraud.{
  Flag, flag_keyed, Fresh, FlagType, Severity, Status, RiskBand, raise_flag, review_flag, weight,
  band_for_score, counts, sum_weights, score_of, opened, escalated, critical, low_risk, medium_risk,
  high_risk, critical_risk,
}
use ryda.Settings.{Settings, get_number, risk_lookback_days}

-- The bands in their order.
abbrev pub rank : RiskBand → ℕ
rank low_risk = 0
rank medium_risk = 1
rank high_risk = 2
rank critical_risk = 3

-- A higher score never has a lower band, however the thresholds are set.
pub band_mono :
    (s : Settings ℕ) (a b : ℕ) → a ≤ b → rank (band_for_score s a) ≤ rank (band_for_score s b)
unfolding band_for_score
band_mono s a b h = ground arith

sum_weights-append :
    (s : Settings ℕ) (xs ys : List Flag)
    → sum_weights s (xs ++ ys) ≡ sum_weights s xs + sum_weights s ys
sum_weights-append s [] ys = omega arith
sum_weights-append s (x ∷ xs) ys = omega (arith, sum_weights-append s xs ys)

-- A flag that is raised now adds its weight to the score of its user at once, if the setting looks
-- back at all, and the score of no one else changes.
pub score_of-raise_flag :
    (s : Settings ℕ) (fresh : Fresh) (type : FlagType) (user other : ℕ) (related : Option ℕ)
    (severity : Severity) (flags : List Flag)
    → 0 < get_number s risk_lookback_days 30
    → score_of s fresh.now other (raise_flag fresh type user related severity flags)
      ≡ score_of s fresh.now other flags + (if user == other then weight s severity else 0)
unfolding score_of raise_flag
score_of-raise_flag s fresh type user other related severity flags h =
    let added : Flag = record {
      id = fresh.id;
      type = type;
      user_id = user;
      related_user_id = related;
      severity = severity;
      status = opened;
      reviewed_by = none;
      created_at = fresh.now;
    } in
    ground (
      arith,
      keep-append (counts s fresh.now other) flags (added ∷ []),
      sum_weights-append s (keep (counts s fresh.now other) flags)
          (keep (counts s fresh.now other) (added ∷ [])),
    )

score-save :
    (s : Settings ℕ) (now user : ℕ) (f f' : Flag) (flags : List Flag)
    → lookup f.id flags ≡ some f
    → f'.id ≡ f.id
    → sum_weights s (keep (counts s now user) (save f' flags))
        + (if counts s now user f then weight s f.severity else 0)
      ≡ sum_weights s (keep (counts s now user) flags)
        + (if counts s now user f' then weight s f'.severity else 0)
score-save s now user f f' [] e k = cc
score-save s now user f f' (x ∷ flags) e k = ground (arith, score-save s now user f f' flags)

-- What a review with this status does to the score that counts the flag.
abbrev pub part : Settings ℕ → ℕ → ℕ → Flag → ℕ
part s now user f = if counts s now user f then weight s f.severity else 0

-- A review changes a score by the weight of the one flag: it leaves or enters the sum with its new
-- status.
pub score_of-review_flag :
    (s : Settings ℕ) (now user id reviewer : ℕ) (status : Status) (flags : List Flag) {f : Flag}
    → lookup id flags ≡ some f
    → score_of s now user (after (review_flag id reviewer status) flags) + part s now user f
      ≡ score_of s now user flags + part s now user (record f { status = status })
unfolding score_of review_flag
score_of-review_flag s now user id reviewer status flags {f} e =
    let f' : Flag = record f { status = status; reviewed_by = some reviewer } in
    ground (arith, score-save s now user f f' flags (lookup-key_of id flags e) refl)

-- Escalating an open flag takes its weight out of its user's score, as dismissing it would.
escalating_lowers :
    (s : Settings ℕ) (now id reviewer : ℕ) (flags : List Flag) {f : Flag}
    → lookup id flags ≡ some f
    → f.status ≡ opened
    → counts s now f.user_id f ≡ true
    → score_of s now f.user_id (after (review_flag id reviewer escalated) flags)
        + weight s f.severity
      ≡ score_of s now f.user_id flags
escalating_lowers s now id reviewer flags {f} e o c =
    ground (arith, score_of-review_flag s now f.user_id id reviewer escalated flags e)

-- With the default weights and thresholds no single flag makes a user's risk CRITICAL, and a LOW or
-- MEDIUM one alone does not make it HIGH.
pub one_flag :
    (severity : Severity)
    → let band = band_for_score (λ _. none) (weight (λ _. none) severity) in
      (rank band ≤ 2) × (rank band ≡ 2 → severity ≡ critical)
unfolding band_for_score weight
one_flag severity = ground arith
