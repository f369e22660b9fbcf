-- ===== src/Commission/Tests.antt =====
-- Runs of the choice of a commission, and examples of the theorems about it.
use ryda.Base.{ℕ, ◌≡◌, refl, true, none, some, [], ◌∷◌, List}
use ryda.Settings.{Settings}
use ryda.Drivers.Entities.{gold}
use ryda.Commission.{
  Rule, Input, ride, matches, specificity, insert, by_specificity, candidates,
  resolve_commission_percent,
}
use ryda.Commission.Specificity.{Charged, resolve_most_specific}

abbrev unset : Settings ℕ
unset _ = none

-- Everywhere, and for one city.
abbrev rules : List Rule
rules =
    record {
      driver_level = none;
      city = none;
      vehicle_category = none;
      applies_to = some ride;
      commission_percent = 2100;
      is_active = true;
    }
    ∷ record {
      driver_level = some gold;
      city = some 7;
      vehicle_category = none;
      applies_to = some ride;
      commission_percent = 900;
      is_active = true;
    }
    ∷ []

abbrev trip : Input
trip = record { driver_level = gold; vehicle_category = some 1; city = some 7; trip_type = ride }

specific : resolve_commission_percent unset rules trip ≡ 900
unfolding resolve_commission_percent by_specificity insert candidates matches specificity
specific = refl

elsewhere : resolve_commission_percent unset rules (record trip { city = none }) ≡ 2100
unfolding resolve_commission_percent by_specificity insert candidates matches specificity
elsewhere = refl

resolve_most_specific_example : Charged unset rules trip
unfolding candidates matches
resolve_most_specific_example = resolve_most_specific unset rules trip refl
