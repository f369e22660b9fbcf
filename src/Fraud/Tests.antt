-- ===== src/Fraud/Tests.antt =====
-- Runs of the risk score, and examples of the theorems about it.
use ryda.Base.{ℕ, ◌≡◌, refl, none, [], ◌∷◌, List}
use ryda.Settings.{Settings}
use ryda.Fraud.{
  Flag, flag_keyed, weight, band_for_score, score_of, assess, opened, critical, high_risk,
  gps_spoof,
}

abbrev defaults : Settings ℕ
defaults _ = none

abbrev spoofed : Flag
spoofed = record {
  id = 1;
  type = gps_spoof;
  user_id = 7;
  related_user_id = none;
  severity = critical;
  status = opened;
  reviewed_by = none;
  created_at = 100;
}

abbrev flags : List Flag
flags = spoofed ∷ []

assessed : assess defaults 200 7 flags ≡ (score_of defaults 200 7 flags, high_risk)
unfolding assess score_of weight band_for_score
assessed = refl
