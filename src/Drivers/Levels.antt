-- ===== src/Drivers/Levels.antt =====
-- src/drivers/drivers.service.ts: the outcome of trips, ratings and levels.
use ryda.Base.{
  ℕ, suc, ◌+◌, ◌*◌, ◌/◌, ltb, leb, Bool, ◌&&◌, ◌||◌, if◌then◌else◌, Action, ◌>>=◌, ◌>>◌, pure,
  throw_if, modify, save, rating_out_of_range,
}
use ryda.Drivers.Entities.{
  Outcome, is_completed, Level, rookie, standard, silver, gold, platinum, diamond, elite, Profile,
  profile_keyed, capability_keyed, vehicle_keyed, log_keyed, Drivers,
}
use ryda.Drivers.{find_by_id}

-- One step of LEVEL_PROGRESSION; the average rating is `sum / count`, in hundredths.
abbrev pub reaches : ℕ → ℕ → ℕ → ℕ → ℕ → Bool
reaches trips sum count min_trips min_rating = leb min_trips trips && leb (min_rating * count) sum

-- computeLevel: the last tier that the driver reaches
unfoldable pub compute_level : ℕ → ℕ → ℕ → Level
compute_level trips sum count =
    let at = reaches trips sum count in
    if at 10000 490
    then elite
    else if at 4000 485
    then diamond
    else if at 1500 480
    then platinum
    else if at 500 470
    then gold
    else if at 200 460
    then silver
    else if at 50 450
    then standard
    else rookie

unfoldable pub record_trip_outcome : ℕ → Outcome → Action Drivers Profile
record_trip_outcome driver_id outcome = do
  profile ← find_by_id driver_id
  let done = if is_completed outcome then suc profile.completed_trips else profile.completed_trips
  let dropped =
      if is_completed outcome then profile.cancelled_trips else suc profile.cancelled_trips
  let saved : Profile = record profile {
    total_trips = suc profile.total_trips;
    completed_trips = done;
    cancelled_trips = dropped;
    level = compute_level done profile.rating 1;
  }
  modify (λ d. record d { profiles = save saved d.profiles })
  pure saved

-- `(sum / count).toFixed(2)`, for a sum of hundredths
unfoldable pub rounded : ℕ → ℕ → ℕ
rounded sum count = (2 * sum + count) / (2 * count)

unfoldable pub apply_rating : ℕ → ℕ → Action Drivers Profile
apply_rating driver_id value = do
  throw_if (ltb value 1 || ltb 5 value) rating_out_of_range
  profile ← find_by_id driver_id
  let count = suc profile.rating_count
  let sum = profile.rating * profile.rating_count + 100 * value
  let saved : Profile = record profile {
    rating = rounded sum count;
    rating_count = count;
    level = compute_level profile.completed_trips sum count;
  }
  modify (λ d. record d { profiles = save saved d.profiles })
  pure saved
