-- ===== src/Rides.antt =====
-- src/rides/rides.service.ts: the life of a ride from its booking on. Generated ids, the settings and the
-- fares of the configuration are arguments; notifications, metrics and free texts are left out.
pub mod Entities
pub mod Acceptance
pub mod Claims
pub mod Payment
pub mod Settlement
pub mod Refusals
pub mod Completion
pub mod Earnings
pub mod Frozen
pub mod Cancellation
pub mod Tips
pub mod Pins
pub mod Lifecycle
pub mod Served
pub mod Cancelled
pub mod Ownership
mod Tests
use ryda.Base.{
  ℕ, suc, ◌+◌, ◌==◌, ltb, leb, Bool, true, false, not, ◌&&◌, ◌||◌, is_some, Option, none, some,
  List, [], ◌∷◌, ◌++◌, ℤ, pos, if◌then◌else◌, Action, Result, ok, err, ◌>>=◌, ◌>>◌, pure, throw,
  gets, or_throw, throw_if, modify, attempt, catch, lookup, save, find_first, ride_not_found,
  not_your_ride, not_the_driver, not_the_passenger, completed_undeletable, pin_verified,
  too_many_pins, tip_not_positive, tip_too_early, no_driver_to_tip, already_tipped, not_arrivable,
  not_startable, not_completed, already_rated, no_driver_to_rate, keep,
}
use ryda.Settings.{Settings}
use ryda.Trips.{
  RideStatus, scheduled, searching, accepted, arrived, in_progress, completed, cancelled, Ride,
  ride_keyed,
}
use ryda.Fare.{calculate_waiting_fee}
use ryda.Wallets.{get_by_user_id, credit, debit}
use ryda.Wallets.Entities.{tip_payment, tip_received}
use ryda.Drivers.{find_by_user_id, restore_after_trip}
use ryda.Drivers.Levels.{apply_rating}
use ryda.Users
use Entities.{Event, status_changed, tip_credit_failed, Rides, on_bank, on_drivers, on_users}

-- findById
abbrev pub find_by_id : ℕ → Action Rides Ride
find_by_id id w = or_throw (lookup id w.rides) ride_not_found w

-- `this.ridesRepo.save(ride)`
abbrev pub store : Ride → Action Rides (Unit {0})
store ride = modify (λ w. record w { rides = save ride w.rides })

abbrev pub emit : Event → Action Rides (Unit {0})
emit e = modify (λ w. record w { events = w.events ++ e ∷ [] })

abbrev pub is_user : ℕ → Option ℕ → Bool
is_user user_id none = false
is_user user_id (some id) = id == user_id

-- getOwnedByDriver
unfoldable pub get_owned_by_driver : ℕ → ℕ → Action Rides Ride
get_owned_by_driver ride_id driver_id = do
  ride ← find_by_id ride_id
  throw_if (not (is_user driver_id ride.driver_id)) not_your_ride
  pure ride

-- COMPLETED or CANCELLED
abbrev pub is_terminal : RideStatus → Bool
is_terminal completed = true
is_terminal cancelled = true
is_terminal _ = false

abbrev pub is_cancelled : RideStatus → Bool
is_cancelled cancelled = true
is_cancelled _ = false

abbrev pub is_completed : RideStatus → Bool
is_completed completed = true
is_completed _ = false

-- forceStatusForAdmin
unfoldable pub force_status_for_admin : ℕ → ℕ → RideStatus → Action Rides Ride
force_status_for_admin log_id id status = do
  ride ← find_by_id id
  let saved : Ride = record ride { status = status }
  store saved
  elim saved.driver_id [
    | none ↦ pure tt
    | some driver_id ↦
        if is_terminal status
        then attempt (on_drivers (restore_after_trip log_id driver_id))
        else pure tt
  ]
  pure saved

-- deleteForAdmin
unfoldable pub delete_for_admin : ℕ → Action Rides (Unit {0})
delete_for_admin id = do
  ride ← find_by_id id
  throw_if (is_completed ride.status) completed_undeletable
  modify (λ w. record w { rides = keep (λ r. not (r.id == id)) w.rides })

abbrev pub pin_max_attempts : ℕ
pin_max_attempts = 5

-- The ride after an attempt at its PIN.
abbrev pub tried_pin : Bool → Ride → Ride
tried_pin true ride = record ride { is_pin_verified = true; verification_pin = none }
tried_pin false ride = record ride { pin_attempt_count = suc ride.pin_attempt_count }

-- verifyPin
unfoldable pub verify_pin : ℕ → ℕ → ℕ → Action Rides Bool
verify_pin ride_id driver_id pin = do
  ride ← find_by_id ride_id
  throw_if (not (is_user driver_id ride.driver_id)) not_the_driver
  throw_if ride.is_pin_verified pin_verified
  throw_if (leb pin_max_attempts ride.pin_attempt_count) too_many_pins
  let verified = is_user pin ride.verification_pin
  store (tried_pin verified ride)
  pure verified

-- The guards of addTip, with the ride and its driver.
unfoldable pub check_tip : ℕ → ℕ → ℕ → Action Rides (Ride × ℕ)
check_tip ride_id passenger_id amount = do
  throw_if (amount == 0) tip_not_positive
  ride ← find_by_id ride_id
  throw_if (not (ride.passenger_id == passenger_id)) not_the_passenger
  throw_if (not (is_completed ride.status)) tip_too_early
  driver_id ← or_throw ride.driver_id no_driver_to_tip
  throw_if (ltb 0 ride.tip_amount) already_tipped
  pure (ride, driver_id)

-- addTip after its guards
unfoldable pub pay_tip : Settings ℤ → Ride → ℕ → ℕ → Action Rides Ride
pay_tip limits ride driver_id amount = do
  passenger_wallet ← on_bank (get_by_user_id ride.passenger_id)
  driver_wallet ← on_bank (get_by_user_id driver_id)
  on_bank (debit passenger_wallet.id (pos amount) tip_payment (some ride.id))
  catch
      (on_bank (credit limits driver_wallet.id (pos amount) tip_received (some ride.id)) >> pure tt)
      (λ _. emit (tip_credit_failed ride.id (pos amount)))
  let tipped : Ride = record ride { tip_amount = amount }
  store tipped
  pure tipped

-- addTip
unfoldable pub add_tip : Settings ℤ → ℕ → ℕ → ℕ → Action Rides Ride
add_tip limits ride_id passenger_id amount = do
  due ← check_tip ride_id passenger_id amount
  pay_tip limits due.0 due.1 amount

abbrev pub is_scheduled : RideStatus → Bool
is_scheduled scheduled = true
is_scheduled _ = false

-- activateScheduledRide, before it starts automatic dispatch
unfoldable pub activate_scheduled_ride : ℕ → Action Rides (Unit {0})
activate_scheduled_ride ride_id w = elim (lookup ride_id w.rides) [
  | none ↦ pure tt w
  | some ride ↦
      if is_scheduled ride.status then store (record ride { status = searching }) w else pure tt w
]

abbrev pub is_accepted : RideStatus → Bool
is_accepted accepted = true
is_accepted _ = false

abbrev pub is_arrived : RideStatus → Bool
is_arrived arrived = true
is_arrived _ = false

-- markArrived
unfoldable pub mark_arrived : ℕ → ℕ → Action Rides Ride
mark_arrived ride_id driver_id = do
  ride ← get_owned_by_driver ride_id driver_id
  throw_if (not (is_accepted ride.status)) not_arrivable
  now ← gets (λ w. w.bank.now)
  let saved : Ride = record ride { status = arrived; arrived_at = some now }
  store saved
  emit (status_changed saved.id arrived)
  pure saved

-- The tariff of waiting: the free minutes, and the rate of each further minute.
pub record Waiting : Type 0 where
  pub free_minutes : ℕ
  pub rate : ℕ

-- The fee of a ride that starts now; nothing where the driver did not report an arrival.
abbrev pub waiting_fee_of : Waiting → ℕ → Ride → ℕ
waiting_fee_of tariff now ride = elim ride.arrived_at [
  | none ↦ 0
  | some arrived_at ↦ calculate_waiting_fee tariff.free_minutes tariff.rate arrived_at now
]

abbrev pub charge_waiting : ℕ → Ride → Ride
charge_waiting fee ride =
    if ltb 0 fee
    then record ride { waiting_fee = fee; total_fare = ride.total_fare + fee }
    else ride

-- startRide
unfoldable pub start_ride : Waiting → ℕ → ℕ → Action Rides Ride
start_ride tariff ride_id driver_id = do
  ride ← get_owned_by_driver ride_id driver_id
  throw_if (not (is_arrived ride.status || is_accepted ride.status)) not_startable
  now ← gets (λ w. w.bank.now)
  let saved : Ride =
      charge_waiting (waiting_fee_of tariff now ride)
        (record ride { status = in_progress; started_at = some now })
  store saved
  emit (status_changed saved.id in_progress)
  pure saved

-- rateDriver
unfoldable pub rate_driver : ℕ → ℕ → ℕ → Action Rides Ride
rate_driver ride_id passenger_id rating = do
  ride ← find_by_id ride_id
  throw_if (not (ride.passenger_id == passenger_id)) not_your_ride
  throw_if (not (is_completed ride.status)) not_completed
  throw_if (is_some ride.driver_rating) already_rated
  driver_id ← or_throw ride.driver_id no_driver_to_rate
  let saved : Ride = record ride { driver_rating = some rating }
  store saved
  profile ← on_drivers (find_by_user_id driver_id)
  on_drivers (apply_rating profile.id rating)
  pure saved

-- ratePassenger
unfoldable pub rate_passenger : ℕ → ℕ → ℕ → Action Rides Ride
rate_passenger ride_id driver_id rating = do
  ride ← get_owned_by_driver ride_id driver_id
  throw_if (not (is_completed ride.status)) not_completed
  throw_if (is_some ride.passenger_rating) already_rated
  let saved : Ride = record ride { passenger_rating = some rating }
  store saved
  on_users (Users.apply_rating ride.passenger_id rating)
  pure saved
