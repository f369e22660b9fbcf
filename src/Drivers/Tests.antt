-- ===== src/Drivers/Tests.antt =====
-- Runs of the driver methods, and examples of the theorems about them.
use ryda.Base.{
  ◌+◌, ◌*◌, ◌≡◌, refl, none, some, [], ◌∷◌, arith, after, result, ok, err, driver_unavailable,
}
use ryda.Drivers.Entities.{
  ride, delivery, approved, accepted, suspended, online_for_rides, offline, on_trip, active, car,
  standard, gold, Profile, profile_keyed, Capability, vehicle_keyed, Drivers,
}
use ryda.Drivers.{is_approved_for, reserve_for_trip, restore_after_trip}
use ryda.Drivers.Levels.{compute_level, rounded}
use ryda.Drivers.Reservation.{reserve_once, restore-reserve}

abbrev ada : Profile
ada = record {
  id = 1;
  user_id = 10;
  approval = accepted;
  availability = online_for_rides;
  last_online = some online_for_rides;
  active_vehicle_id = some 5;
  rating = 450;
  rating_count = 3;
  total_trips = 60;
  completed_trips = 58;
  cancelled_trips = 2;
  level = standard;
  fleet_company_id = none;
  commission_override_percent = none;
}

abbrev can_ride : Capability
can_ride = record { id = 1; driver_profile_id = 1; service = ride; decision = approved }

abbrev fleet_of : Profile → Drivers
fleet_of p = record {
  profiles = p ∷ [];
  capabilities = can_ride ∷ [];
  vehicles = record { id = 5; category = car; approved_ride_categories = []; status = active } ∷ [];
  logs = [];
  events = [];
}

abbrev fleet : Drivers
fleet = fleet_of ada

reserved : result (reserve_for_trip 1 10 ride) fleet ≡ ok (record ada { availability = on_trip })
unfolding reserve_for_trip
reserved = refl

wrong_service : result (reserve_for_trip 1 10 delivery) fleet ≡ err driver_unavailable
unfolding reserve_for_trip
wrong_service = refl

levels : (compute_level 58 450 1 ≡ standard) × (compute_level 600 4700 10 ≡ gold)
unfolding compute_level
levels = (refl, refl)

reserve_once_example :
    result (reserve_for_trip 2 10 delivery) (after (reserve_for_trip 1 10 ride) fleet)
    ≡ err driver_unavailable
unfolding reserve_for_trip
reserve_once_example =
    reserve_once 1 2 10 ride delivery fleet {p = record ada { availability = on_trip }} (refl, tt)
      (omega arith) refl

restore-reserve_example :
    result (restore_after_trip 2 10) (after (reserve_for_trip 1 10 ride) fleet) ≡ ok ada
unfolding is_approved_for
restore-reserve_example =
    restore-reserve 1 2 10 ride fleet {p = ada} (refl, tt) refl refl refl (λ h. refl)
      (λ h. absurd (ground arith))

abbrev ended : Profile
ended = record ada { availability = on_trip; approval = suspended }

abbrev resting : Profile
resting = record ada { availability = offline }

abbrev rated : Profile
rated = record ada {
  rating = rounded (450 * 3 + 100 * 2) 4;
  rating_count = 4;
  level = compute_level 58 (450 * 3 + 100 * 2) 4;
}
