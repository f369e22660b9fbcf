-- ===== src/Commission.antt =====
-- src/commission/commission.service.ts with entities/commission-rule.entity.ts: the commission of a trip,
-- from the most specific rule or the default of the driver's level. A percentage is a whole number of
-- hundredths of a percent; a city is a number, equal for names that differ in case only.
pub mod Specificity
mod Tests
use ryda.Base.{
  ℕ, ◌+◌, ◌==◌, leb, Bool, true, false, ◌&&◌, Option, none, some, List, [], ◌∷◌, if◌then◌else◌,
  keep,
}
use ryda.Settings.{
  Settings, SettingKey, get_number, commission_default_rookie, commission_default_standard,
  commission_default_silver, commission_default_gold, commission_default_platinum,
  commission_default_diamond, commission_default_elite, commission_default_delivery_rookie,
  commission_default_delivery_standard, commission_default_delivery_silver,
  commission_default_delivery_gold, commission_default_delivery_platinum,
  commission_default_delivery_diamond, commission_default_delivery_elite,
}
use ryda.Drivers.Entities.{Level, rookie, standard, silver, gold, platinum, diamond, elite}

-- CommissionAppliesTo
pub data TripType : Type 0 where
  ride delivery : TripType

abbrev pub same_trip : TripType → TripType → Bool
same_trip ride ride = true
same_trip delivery delivery = true
same_trip _ _ = false

abbrev pub same_level : Level → Level → Bool
same_level rookie rookie = true
same_level standard standard = true
same_level silver silver = true
same_level gold gold = true
same_level platinum platinum = true
same_level diamond diamond = true
same_level elite elite = true
same_level _ _ = false

-- CommissionRule; a vehicle category is a number, since it is only compared.
pub record Rule : Type 0 where
  pub driver_level : Option Level
  pub city : Option ℕ
  pub vehicle_category : Option ℕ
  pub applies_to : Option TripType
  pub commission_percent : ℕ
  pub is_active : Bool

-- ResolveInput
pub record Input : Type 0 where
  pub driver_level : Level
  pub vehicle_category : Option ℕ
  pub city : Option ℕ
  pub trip_type : TripType

-- A dimension that the rule leaves open, or that the trip has.
abbrev pub fits : Option ℕ → Option ℕ → Bool
fits none _ = true
fits (some _) none = false
fits (some a) (some b) = a == b

unfoldable pub matches : Rule → Input → Bool
matches rule input =
    elim rule.driver_level [ none ↦ true | some l ↦ same_level l input.driver_level ]
    && fits rule.vehicle_category input.vehicle_category
    && fits rule.city input.city
    && elim rule.applies_to [ none ↦ true | some t ↦ same_trip t input.trip_type ]

abbrev pub point : {A : Type 0} → Option A → ℕ
point none = 0
point (some _) = 1

unfoldable pub specificity : Rule → ℕ
specificity rule =
    point rule.driver_level + point rule.vehicle_category + point rule.city + point rule.applies_to

-- `.sort((a, b) => b.score - a.score)`, which keeps the order of equal scores
unfoldable pub insert : Rule → List Rule → List Rule
insert r [] = r ∷ []
insert r (q ∷ rules) =
    if leb (specificity q) (specificity r) then r ∷ q ∷ rules else q ∷ insert r rules

unfoldable pub by_specificity : List Rule → List Rule
by_specificity [] = []
by_specificity (r ∷ rules) = insert r (by_specificity rules)

-- DEFAULT_COMMISSION_BY_LEVEL
unfoldable pub default_commission : Level → ℕ
default_commission rookie = 2500
default_commission standard = 2200
default_commission silver = 2000
default_commission gold = 1800
default_commission platinum = 1500
default_commission diamond = 1200
default_commission elite = 1000

-- COMMISSION_SETTING_KEY_BY_LEVEL
unfoldable pub ride_key : Level → SettingKey
ride_key rookie = commission_default_rookie
ride_key standard = commission_default_standard
ride_key silver = commission_default_silver
ride_key gold = commission_default_gold
ride_key platinum = commission_default_platinum
ride_key diamond = commission_default_diamond
ride_key elite = commission_default_elite

-- COMMISSION_SETTING_KEY_BY_LEVEL_DELIVERY
unfoldable pub delivery_key : Level → SettingKey
delivery_key rookie = commission_default_delivery_rookie
delivery_key standard = commission_default_delivery_standard
delivery_key silver = commission_default_delivery_silver
delivery_key gold = commission_default_delivery_gold
delivery_key platinum = commission_default_delivery_platinum
delivery_key diamond = commission_default_delivery_diamond
delivery_key elite = commission_default_delivery_elite

-- The default of a level for a trip type: deliveries fall back to the default of rides.
unfoldable pub default_for : Settings ℕ → Level → TripType → ℕ
default_for s level ride = get_number s (ride_key level) (default_commission level)
default_for s level delivery =
    get_number s (delivery_key level) (get_number s (ride_key level) (default_commission level))

-- The rules that a trip may be charged by, in the order of the table.
unfoldable pub candidates : List Rule → Input → List Rule
candidates rules input = keep (λ r. r.is_active && matches r input) rules

unfoldable pub resolve_commission_percent : Settings ℕ → List Rule → Input → ℕ
resolve_commission_percent s rules input = elim (by_specificity (candidates rules input)) [
  | [] ↦ default_for s input.driver_level input.trip_type
  | r ∷ _ ↦ r.commission_percent
]
