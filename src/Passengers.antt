-- ===== src/Passengers.antt =====
-- src/passengers/passengers.service.ts with entities/passenger-profile.entity.ts: the profile of a passenger,
-- the block list and the counts of their rides. Amounts are whole kobo; generated ids are arguments.
use ryda.Base.{
  ℕ, suc, ◌+◌, ◌==◌, Bool, false, Option, none, some, List, Action, ◌>>=◌, ◌>>◌, pure, gets,
  throw_if, modify, Keyed, save, find_first, passenger_blacklisted,
}

pub record PassengerProfile : Type 0 where
  pub id : ℕ
  pub user_id : ℕ
  pub is_blacklisted : Bool
  pub total_rides : ℕ
  pub completed_rides : ℕ
  pub cancelled_rides : ℕ
  pub total_spend : ℕ

instance abbrev pub passenger_keyed : Keyed PassengerProfile
passenger_keyed = record { key = λ p. p.id }

abbrev pub profile_of : ℕ → List PassengerProfile → Option PassengerProfile
profile_of user_id = find_first (λ p. p.user_id == user_id)

abbrev pub new_profile : ℕ → ℕ → PassengerProfile
new_profile id user_id = record {
  id = id;
  user_id = user_id;
  is_blacklisted = false;
  total_rides = 0;
  completed_rides = 0;
  cancelled_rides = 0;
  total_spend = 0;
}

-- getOrCreate
unfoldable pub get_or_create : ℕ → ℕ → Action (List PassengerProfile) PassengerProfile
get_or_create id user_id ps = elim (profile_of user_id ps) [
  | some p ↦ pure p ps
  | none ↦ pure (new_profile id user_id) (save (new_profile id user_id) ps)
]

-- setBlacklist
unfoldable pub set_blacklist : ℕ → ℕ → Bool → Action (List PassengerProfile) PassengerProfile
set_blacklist id user_id blacklisted = do
  profile ← get_or_create id user_id
  let saved : PassengerProfile = record profile { is_blacklisted = blacklisted }
  modify (save saved)
  pure saved

abbrev pub blacklisted : Option PassengerProfile → Bool
blacklisted none = false
blacklisted (some p) = p.is_blacklisted

-- assertNotBlacklisted
unfoldable pub assert_not_blacklisted : ℕ → Action (List PassengerProfile) (Unit {0})
assert_not_blacklisted user_id = do
  profile ← gets (profile_of user_id)
  throw_if (blacklisted profile) passenger_blacklisted

-- The counts after a trip: completed for a fare, or cancelled.
abbrev pub counted : Option ℕ → PassengerProfile → PassengerProfile
counted (some fare) p = record p {
  total_rides = suc p.total_rides;
  completed_rides = suc p.completed_rides;
  total_spend = p.total_spend + fare;
}
counted none p = record p {
  total_rides = suc p.total_rides;
  cancelled_rides = suc p.cancelled_rides;
}

-- recordTripOutcome
unfoldable pub record_trip_outcome : ℕ → ℕ → Option ℕ → Action (List PassengerProfile) (Unit {0})
record_trip_outcome id user_id fare = do
  profile ← get_or_create id user_id
  modify (save (counted fare profile))
