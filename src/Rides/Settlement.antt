-- ===== src/Rides/Settlement.antt =====
-- src/rides/rides.service.ts: the completion of a ride, and what undoes it when its payment throws.
use ryda.Rides.Payment.{Context, Gateway, settle_by, credit_driver_earnings}
use ryda.Base.{
  ℕ, ◌+◌, ◌*◌, ◌/◌, Bool, true, false, not, Option, none, some, ℤ, pos, ◌-ℤ◌, if◌then◌else◌, Action,
  ◌>>=◌, ◌>>◌, pure, throw, gets, throw_if, catch, lookup, vehicle_not_found, not_in_progress,
}
use ryda.Settings.{Settings}
use ryda.Trips.{RideStatus, in_progress, completed, PaymentMethod, bank_transfer, Ride, ride_keyed}
use ryda.Commission.{Rule, resolve_commission_percent}
use ryda.Drivers.{find_by_user_id, restore_after_trip}
use ryda.Drivers.Entities.{Profile, Vehicle, vehicle_keyed, category_number}
use ryda.Drivers.Levels.{record_trip_outcome}
use ryda.Passengers
use ryda.Promotions.{settle_cashback_for_ride, grant_referral_bonus}
use ryda.Users.{user_keyed}
use ryda.Commission
use ryda.Drivers.Entities
use ryda.Rides.{store, emit, get_owned_by_driver}
use ryda.Rides.Entities.{Rides, status_changed, on_drivers, on_passengers, on_promotions}

-- The category of the driver's vehicle, if they have one.
unfoldable pub vehicle_category_of : Profile → Action Rides (Option ℕ)
vehicle_category_of profile w = elim profile.active_vehicle_id [
  | none ↦ pure none w
  | some id ↦ elim (lookup id w.drivers.vehicles) [
    | none ↦ throw vehicle_not_found w
    | some vehicle ↦ pure (some (category_number vehicle.category)) w
  ]
]

-- commissionPercent
unfoldable pub commission_percent_of : Context → Profile → Option ℕ → Ride → ℕ
commission_percent_of context profile vehicle_category ride =
    elim profile.commission_override_percent [
      | some percent ↦ percent
      | none ↦ resolve_commission_percent context.settings context.rules record {
        driver_level = profile.level;
        vehicle_category = vehicle_category;
        city = ride.city;
        trip_type = Commission.ride;
      }
    ]

-- `this.round(totalFare * (commissionPercent / 100))`, in kobo
unfoldable pub commission_amount_of : ℕ → ℕ → ℕ
commission_amount_of percent fare = (2 * (fare * percent) + 10000) / 20000

-- The ride as it is completed at a commission.
unfoldable pub completed_at_commission : ℕ → ℕ → Ride → Ride
completed_at_commission now percent ride =
    let amount = commission_amount_of percent ride.total_fare in
    record ride {
      status = completed;
      completed_at = some now;
      commission_percent = some percent;
      commission_amount = some amount;
      driver_earnings = some (pos ride.total_fare -ℤ pos amount);
    }

-- The ride back in progress, as the catch in completeRide leaves it.
abbrev pub reverted : Ride → Ride
reverted ride = record ride {
  status = in_progress;
  completed_at = none;
  commission_percent = none;
  commission_amount = none;
  driver_earnings = none;
}

-- The settlement, undone in the ride's row where it throws.
unfoldable pub settle_or_revert : Context → Gateway → Ride → Profile → ℕ → ℤ → Action Rides Ride
settle_or_revert context gateway ride profile driver_id earnings =
    catch (settle_by ride.payment_method context gateway ride profile driver_id earnings)
      (λ e. store (reverted ride) >> emit (status_changed ride.id in_progress) >> throw e)

-- What follows a settled completion.
unfoldable pub close_trip : Context → Ride → Profile → ℕ → Action Rides (Unit {0})
close_trip context ride profile driver_id = do
  on_drivers (record_trip_outcome profile.id Entities.completed)
  on_drivers (restore_after_trip context.log_id driver_id)
  on_passengers
      (Passengers.record_trip_outcome context.passenger_id ride.passenger_id (some ride.total_fare))
  on_promotions (settle_cashback_for_ride context.limits ride.id ride.passenger_id)
  on_promotions (
      grant_referral_bonus context.limits context.settings context.passenger_flag_id
        ride.passenger_id)
  on_promotions
      (grant_referral_bonus context.limits context.settings context.driver_flag_id driver_id)

-- The completed row is stored, then the fare is settled.
unfoldable pub complete_at : ℕ → Context → Gateway → Ride → Profile → ℕ → Action Rides Ride
complete_at percent context gateway ride profile driver_id = do
  now ← gets (λ w. w.bank.now)
  let done = completed_at_commission now percent ride
  store done
  emit (status_changed done.id completed)
  let earnings = pos ride.total_fare -ℤ pos (commission_amount_of percent ride.total_fare)
  settle_or_revert context gateway done profile driver_id earnings

unfoldable pub complete_and_settle : Context → Gateway → Ride → Profile → ℕ → Action Rides Ride
complete_and_settle context gateway ride profile driver_id = do
  vehicle_category ← vehicle_category_of profile
  complete_at (commission_percent_of context profile vehicle_category ride) context gateway ride
      profile driver_id

abbrev pub is_in_progress : RideStatus → Bool
is_in_progress in_progress = true
is_in_progress _ = false

-- completeRide after its guards
unfoldable pub complete_owned : Context → Gateway → Ride → Profile → ℕ → Action Rides Ride
complete_owned context gateway ride profile driver_id = do
  settled ← complete_and_settle context gateway ride profile driver_id
  close_trip context settled profile driver_id
  pure settled

-- completeRide
unfoldable pub complete_ride : Context → Gateway → ℕ → ℕ → Action Rides Ride
complete_ride context gateway ride_id driver_id = do
  ride ← get_owned_by_driver ride_id driver_id
  throw_if (not (is_in_progress ride.status)) not_in_progress
  profile ← on_drivers (find_by_user_id driver_id)
  complete_owned context gateway ride profile driver_id

abbrev pub is_bank_transfer : PaymentMethod → Bool
is_bank_transfer bank_transfer = true
is_bank_transfer _ = false

-- handlePaymentConfirmed
unfoldable pub handle_payment_confirmed : Settings ℤ → ℕ → Action Rides (Unit {0})
handle_payment_confirmed limits ride_id w = elim (lookup ride_id w.rides) [
  | none ↦ pure tt w
  | some ride ↦ elim ride.driver_id [
    | none ↦ pure tt w
    | some driver_id ↦ elim ride.driver_earnings [
      | none ↦ pure tt w
      | some earnings ↦
          if ride.earnings_settled
          then pure tt w
          else if not (is_bank_transfer ride.payment_method)
          then pure tt w
          else (on_drivers (find_by_user_id driver_id) >>= λ profile.
                credit_driver_earnings limits ride profile earnings >> pure tt)
              w
    ]
  ]
]
