-- ===== src/Dispatch/Airport.antt =====
-- src/airport/airport.service.ts with entities/airport-queue-entry.entity.ts: the drivers who wait at an airport, and
-- tryOfferViaAirportQueue of src/dispatch/auto-dispatch.service.ts, which takes the next of them out of the
-- queue. The rows are in the order of joining; the airport that contains the pickup is an argument.
use ryda.Base.{
  ℕ, suc, zero, ◌==◌, Bool, true, false, ◌&&◌, Option, none, some, List, [], ◌∷◌, length,
  if◌then◌else◌, Action, pure, ◌>>◌,
}
use ryda.Trips.{Ride, RideCategory}
use ryda.Drivers.{profile_of}
use ryda.Drivers.Entities.{Profile, is_online, Vehicle, VehicleCategory}
use ryda.Drivers.Entities
use ryda.Dispatch.{Dispatch, offer_to_specific_driver}
use ryda.Rides.Acceptance.{does_vehicle_match}

-- AirportQueueStatus
pub data QueueStatus : Type 0 where
  waiting dispatched left : QueueStatus

-- AirportQueueEntry
pub record QueueEntry : Type 0 where
  pub id : ℕ
  pub airport_id : ℕ
  pub driver_user_id : ℕ
  pub vehicle_category : Option VehicleCategory
  pub status : QueueStatus

-- The tables that automatic dispatch works on.
pub record Board : Type 0 where
  pub dispatch : Dispatch
  pub queue : List QueueEntry
  pub profiles : List Profile

abbrev is_waiting : QueueStatus → Bool
is_waiting waiting = true
is_waiting _ = false

-- The rows of listQueue
abbrev pub waits_at : ℕ → QueueEntry → Bool
waits_at airport_id e = e.airport_id == airport_id && is_waiting e.status

-- `{ category: entry.vehicleCategory }`, which has no ride categories of its own
abbrev bare : VehicleCategory → Vehicle
bare c = record {
  id = 0;
  category = c;
  approved_ride_categories = [];
  status = Entities.VehicleStatus.active;
}

abbrev fits_category : RideCategory → Option VehicleCategory → Bool
fits_category category none = false
fits_category category (some c) = does_vehicle_match (bare c) category

-- dispatchNext: the first of the queue whose vehicle fits, who is then marked as dispatched.
abbrev pub dispatch_next :
    ℕ → RideCategory → List QueueEntry → Option (QueueEntry × List QueueEntry)
dispatch_next airport_id category [] = none
dispatch_next airport_id category (e ∷ entries) =
    let next : QueueEntry = record e { status = dispatched } in
    if waits_at airport_id e && fits_category category e.vehicle_category
    then some (next, next ∷ entries)
    else elim (dispatch_next airport_id category entries) [
      | none ↦ none
      | some (found, rest) ↦ some (found, e ∷ rest)
    ]

-- The driver has a profile, and is online.
abbrev pub is_ready : List Profile → ℕ → Bool
is_ready profiles driver_id = elim (profile_of driver_id profiles) [
  | none ↦ false
  | some p ↦ is_online p.availability
]

-- The loop of tryOfferViaAirportQueue: the first driver taken from the queue who is ready, and the queue
-- that is left. Each round takes a driver out, so one round more than there are rows is enough.
abbrev pub next_ready :
    ℕ → ℕ → RideCategory → List Profile → List QueueEntry → Option ℕ × List QueueEntry
next_ready zero airport_id category profiles entries = (none, entries)
next_ready (suc n) airport_id category profiles entries =
    elim (dispatch_next airport_id category entries) [
      | none ↦ (none, entries)
      | some (entry, rest) ↦ elim (is_ready profiles entry.driver_user_id) [
        | true ↦ (some entry.driver_user_id, rest)
        | false ↦ next_ready n airport_id category profiles rest
      ]
    ]

-- A call on the offers and rides
abbrev pub on_offers : {A : Type 0} → Action Dispatch A → Action Board A
on_offers f b = let (r, d) = f b.dispatch in (r, record b { dispatch = d })

abbrev pub offer_found : ℕ → ℕ → Ride → Option ℕ → Action Board Bool
offer_found timeout id ride none = pure false
offer_found timeout id ride (some driver_id) =
    on_offers (offer_to_specific_driver timeout id ride.id driver_id) >> pure true

-- tryOfferViaAirportQueue
unfoldable pub try_offer_via_airport_queue : ℕ → ℕ → Option ℕ → Ride → Action Board Bool
try_offer_via_airport_queue timeout id none ride b = pure false b
try_offer_via_airport_queue timeout id (some airport_id) ride b =
    let (found, rest) =
      next_ready (suc (length b.queue)) airport_id ride.category b.profiles b.queue in
    offer_found timeout id ride found (record b { queue = rest })
