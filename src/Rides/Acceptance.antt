-- ===== src/Rides/Acceptance.antt =====
-- src/rides/rides.service.ts: a driver accepts a ride. The rows are checked first; the claim of the driver and of
-- the ride is one transaction, which reads the ride's status again.
use ryda.Base.{
  ℕ, ◌==◌, Bool, true, false, not, ◌&&◌, ◌||◌, Option, none, some, pos, leb_ℤ, if◌then◌else◌,
  Action, ◌>>=◌, ◌>>◌, pure, gets, or_throw, throw_if, transaction, attempt, lookup, some_of,
  not_acceptable, offered_to_another, offer_gone, driver_not_approved, driver_offline,
  no_active_vehicle, vehicle_not_found, vehicle_not_active, vehicle_mismatch, too_much_debt,
  just_cancelled, just_taken, user_not_found,
}
use ryda.Settings.{Settings, get_number, max_cash_debt_before_restriction}
use ryda.Trips.{
  RideStatus, requested, searching, accepted, RideCategory, economy, comfort, same_category,
  PaymentMethod, cash, Ride, ride_keyed,
}
use ryda.Users.{user_keyed}
use ryda.Drivers.{find_by_user_id, reserve_for_trip}
use ryda.Drivers.Entities.{
  ride, is_accepted, is_online_for, Profile, Vehicle, vehicle_keyed, VehicleCategory, car,
  is_active, category_number,
}
use ryda.Debts.{get_outstanding_balance}
use ryda.Dispatch.{get_pending_offer_for_ride, has_ever_had_offer, mark_accepted}
use ryda.Rides.{is_cancelled, find_by_id, store, emit}
use ryda.Rides.Entities.{Rides, status_changed, on_drivers, on_dispatch, dispatch_of}

-- SEARCHING or REQUESTED
abbrev pub is_open : RideStatus → Bool
is_open searching = true
is_open requested = true
is_open _ = false

abbrev pub is_cash : PaymentMethod → Bool
is_cash cash = true
is_cash _ = false

-- RIDE_CATEGORY_TO_VEHICLE_CATEGORY
abbrev pub default_category : RideCategory → Option VehicleCategory
default_category economy = some car
default_category comfort = none

-- doesVehicleMatchRideCategory
unfoldable pub does_vehicle_match : Vehicle → RideCategory → Bool
does_vehicle_match vehicle category =
    elim (default_category category) [
      | none ↦ false
      | some c ↦ category_number c == category_number vehicle.category
    ]
    || some_of (same_category category) vehicle.approved_ride_categories

-- The exclusive right of the driver whom the passenger chose.
unfoldable pub check_offer : ℕ → ℕ → Action Rides (Unit {0})
check_offer ride_id driver_id w = elim (get_pending_offer_for_ride ride_id (dispatch_of w)) [
  | some offer ↦ throw_if (not (offer.driver_user_id == driver_id)) offered_to_another w
  | none ↦ throw_if (has_ever_had_offer ride_id (dispatch_of w)) offer_gone w
]

-- The driver's approval, availability and vehicle.
unfoldable pub check_driver : RideCategory → ℕ → Action Rides Profile
check_driver category driver_id = do
  profile ← on_drivers (find_by_user_id driver_id)
  throw_if (not (is_accepted profile.approval)) driver_not_approved
  throw_if (not (is_online_for profile.availability ride)) driver_offline
  vehicle_id ← or_throw profile.active_vehicle_id no_active_vehicle
  vehicle ← or_throw (← gets (λ w. lookup vehicle_id w.drivers.vehicles)) vehicle_not_found
  throw_if (not (is_active vehicle.status)) vehicle_not_active
  throw_if (not (does_vehicle_match vehicle category)) vehicle_mismatch
  pure profile

-- The limit on unpaid commission, for a cash ride; 5,000 naira where it is not set.
unfoldable pub check_debt : Settings ℕ → PaymentMethod → ℕ → Action Rides (Unit {0})
check_debt settings method driver_id w =
    let owed = (get_outstanding_balance driver_id (record { bank = w.bank; items = w.debts })).0 in
    let limit = get_number settings max_cash_debt_before_restriction 500000 in
    throw_if (is_cash method && leb_ℤ (pos limit) owed) too_much_debt w

-- The callback of the transaction: the driver's row, then the ride's where its status still allows it.
unfoldable pub claim_rows : ℕ → ℕ → ℕ → Action Rides Ride
claim_rows log_id ride_id driver_id = do
  reserved ← on_drivers (reserve_for_trip log_id driver_id ride)
  current ← or_throw (← gets (λ w. lookup ride_id w.rides)) just_taken
  throw_if (is_cancelled current.status) just_cancelled
  throw_if (not (is_open current.status)) just_taken
  now ← gets (λ w. w.bank.now)
  let saved : Ride = record current {
    driver_id = some driver_id;
    vehicle_id = reserved.active_vehicle_id;
    status = accepted;
    accepted_at = some now;
  }
  store saved
  pure saved

unfoldable pub claim : ℕ → ℕ → ℕ → Action Rides Ride
claim log_id ride_id driver_id = transaction (claim_rows log_id ride_id driver_id)

-- The checks before the transaction; `bypass` is bypassOfferCheck.
unfoldable pub check_acceptance : Settings ℕ → Bool → ℕ → ℕ → Action Rides (Unit {0})
check_acceptance settings bypass ride_id driver_id = do
  found ← find_by_id ride_id
  throw_if (not (is_open found.status)) not_acceptable
  (if bypass then pure tt else check_offer ride_id driver_id)
  check_driver found.category driver_id
  check_debt settings found.payment_method driver_id

-- acceptRide, without driver.availability.changed and ride.accepted after the claim
unfoldable pub accept_ride : Settings ℕ → Bool → ℕ → ℕ → ℕ → Action Rides Ride
accept_ride settings bypass log_id ride_id driver_id = do
  check_acceptance settings bypass ride_id driver_id
  saved ← claim log_id ride_id driver_id
  or_throw (← gets (λ w. lookup driver_id w.users)) user_not_found
  emit (status_changed saved.id accepted)
  attempt (on_dispatch (mark_accepted ride_id driver_id))
  pure saved
