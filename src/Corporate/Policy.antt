-- ===== src/Corporate/Policy.antt =====
-- src/corporate/corporate.service.ts: checkRidePolicy, what an account lets its employees ride.
use ryda.Base.{
  ℕ, ◌==◌, ltb, leb, Bool, true, not, ◌&&◌, ◌||◌, Option, none, some, if◌then◌else◌, ℤ, leb_ℤ,
  some_of,
}
use ryda.Users.{user_keyed}
use ryda.Trips.{RideCategory, same_category}
use ryda.Corporate.Entities.{
  CorporateAccount, account_keyed, employee_keyed, approval_keyed, invoice_keyed,
}

-- The ride that checkRidePolicy is asked about; `hour` is that of the time it is requested for.
pub record Request : Type 0 where
  pub category : RideCategory
  pub estimated_fare : ℤ
  pub city : Option ℕ
  pub hour : ℕ

-- The four reasons of checkRidePolicy
pub data Refusal : Type 0 where
  category_not_allowed fare_above_limit city_not_allowed outside_hours : Refusal

abbrev pub allows_category : CorporateAccount → RideCategory → Bool
allows_category account category = elim account.allowed_categories [
  | none ↦ true
  | some allowed ↦ some_of (same_category category) allowed
]

abbrev pub allows_fare : CorporateAccount → ℤ → Bool
allows_fare account fare = elim account.max_fare_per_ride [
  | none ↦ true
  | some limit ↦ leb_ℤ fare limit
]

abbrev pub allows_city : CorporateAccount → Option ℕ → Bool
allows_city account none = true
allows_city account (some city) = elim account.allowed_cities [
  | none ↦ true
  | some allowed ↦ some_of (λ c. c == city) allowed
]

-- `start <= end ? hour >= start && hour < end : hour >= start || hour < end`
abbrev pub within_window : ℕ → ℕ → ℕ → Bool
within_window start end hour =
    if leb start end then leb start hour && ltb hour end else leb start hour || ltb hour end

abbrev pub allows_hour : CorporateAccount → ℕ → Bool
allows_hour account hour = elim account.operating_hours_start [
  | none ↦ true
  | some start ↦ elim account.operating_hours_end [
    | none ↦ true
    | some end ↦ within_window start end hour
  ]
]

-- checkRidePolicy: nothing where the ride is allowed, else the first reason against it
unfoldable pub check_ride_policy : CorporateAccount → Request → Option Refusal
check_ride_policy account r =
    if not (allows_category account r.category)
    then some category_not_allowed
    else if not (allows_fare account r.estimated_fare)
    then some fare_above_limit
    else if not (allows_city account r.city)
    then some city_not_allowed
    else if not (allows_hour account r.hour)
    then some outside_hours
    else none
