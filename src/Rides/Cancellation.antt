-- ===== src/Rides/Cancellation.antt =====
-- src/rides/rides.service.ts: cancelling a ride. What pooling does about a partner's ride is left out.
use ryda.Base.{
  ℕ, ◌+◌, ◌*◌, ◌==◌, ltb, Bool, true, false, not, ◌&&◌, Option, none, some, ℤ, pos, if◌then◌else◌,
  Action, ok, err, ◌>>=◌, ◌>>◌, pure, gets, or_throw, throw_if, attempt, keep, length,
  not_your_ride, not_cancellable,
}
use ryda.Settings.{Settings, get_number, cancellation_fee}
use ryda.Trips.{
  RideStatus, accepted, arriving, arrived, cancelled, CancelledBy, by_passenger, by_driver,
  PaymentMethod, by_wallet, Ride, ride_keyed,
}
use ryda.Wallets.{get_by_user_id, credit, debit}
use ryda.Wallets.Entities as Ledger
use ryda.Fleet.{credit_for_ride_earning}
use ryda.Fraud.{Fresh, check_repeated_cancellations}
use ryda.Drivers.{find_by_user_id, restore_after_trip}
use ryda.Drivers.Entities
use ryda.Drivers.Levels.{record_trip_outcome}
use ryda.Passengers
use ryda.Rides.{is_cancelled, find_by_id, store, emit, is_user, is_terminal}
use ryda.Rides.Payment.{Context}
use ryda.Rides.Entities.{Rides, status_changed, on_bank, on_fleets, on_drivers, on_passengers}

-- The party that cancels: as given, or the passenger or driver that the caller is.
unfoldable pub canceller : Option CancelledBy → ℕ → Ride → Option CancelledBy
canceller (some who) actor_id ride = some who
canceller none actor_id ride =
    if ride.passenger_id == actor_id
    then some by_passenger
    else if is_user actor_id ride.driver_id
    then some by_driver
    else none

abbrev pub is_passenger : CancelledBy → Bool
is_passenger by_passenger = true
is_passenger _ = false

abbrev pub is_driver : CancelledBy → Bool
is_driver by_driver = true
is_driver _ = false

-- The guards of cancelRide, with the ride and the party that cancels it.
unfoldable pub check_cancel : ℕ → ℕ → Option CancelledBy → Action Rides (Ride × CancelledBy)
check_cancel ride_id actor_id given = do
  ride ← find_by_id ride_id
  who ← or_throw (canceller given actor_id ride) not_your_ride
  throw_if (is_passenger who && not (ride.passenger_id == actor_id)) not_your_ride
  throw_if (is_driver who && not (is_user actor_id ride.driver_id)) not_your_ride
  throw_if (is_terminal ride.status) not_cancellable
  pure (ride, who)

-- driverWasEngaged
abbrev pub is_engaged : RideStatus → Bool
is_engaged accepted = true
is_engaged arriving = true
is_engaged arrived = true
is_engaged _ = false

abbrev pub is_wallet : PaymentMethod → Bool
is_wallet by_wallet = true
is_wallet _ = false

-- The compensation of the driver, or of their fleet.
unfoldable pub compensate : Settings ℤ → Ride → ℕ → ℤ → Action Rides (Unit {0})
compensate limits ride driver_id fee = do
  profile ← on_drivers (find_by_user_id driver_id)
  elim profile.fleet_company_id [
    | some fleet ↦ on_fleets (credit_for_ride_earning fleet fee ride.id)
    | none ↦ on_bank (get_by_user_id driver_id) >>= λ wallet.
        on_bank (credit limits wallet.id fee Ledger.cancellation_fee (some ride.id)) >> pure tt
  ]

-- The fee out of the passenger's wallet, which is noted on the ride before the driver is paid.
unfoldable pub charge_fee : Settings ℤ → ℕ → Ride → ℕ → Action Rides Ride
charge_fee limits fee ride driver_id w =
    let taken =
      (on_bank (get_by_user_id ride.passenger_id) >>= λ wallet.
      on_bank (debit wallet.id (pos fee) Ledger.cancellation_fee (some ride.id)))
        w in
    elim (taken.0) [
      | err _ ↦ (ok ride, taken.1)
      | ok _ ↦
          (attempt (compensate limits ride driver_id (pos fee))
              >> pure (record ride { cancellation_fee = some fee }))
            (taken.1)
    ]

-- The fee where it applies: the passenger cancels a wallet ride whose driver is on the way.
unfoldable pub charge_if_due : Settings ℤ → ℕ → CancelledBy → RideStatus → Ride → Action Rides Ride
charge_if_due limits fee who original ride = elim ride.driver_id [
  | none ↦ pure ride
  | some driver_id ↦
      if is_passenger who && is_engaged original && is_wallet ride.payment_method
      then charge_fee limits fee ride driver_id
      else pure ride
]

-- The records of the driver and of the passenger.
unfoldable pub record_outcomes : Context → Ride → Action Rides (Unit {0})
record_outcomes context ride = do
  elim ride.driver_id [
    | none ↦ pure tt
    | some driver_id ↦ on_drivers (find_by_user_id driver_id) >>= λ profile.
        on_drivers (record_trip_outcome profile.id Entities.cancelled)
        >> on_drivers (restore_after_trip context.log_id driver_id)
        >> pure tt
  ]
  on_passengers (Passengers.record_trip_outcome context.passenger_id ride.passenger_id none)

-- A cancellation of a passenger by themselves in the last 24 hours.
abbrev pub recently_cancelled : ℕ → ℕ → Ride → Bool
recently_cancelled now passenger_id r =
    r.passenger_id == passenger_id
    && is_cancelled r.status
    && elim r.cancelled_by [ none ↦ false | some who ↦ is_passenger who ]
    && elim r.cancelled_at [ none ↦ false | some at ↦ ltb now (at + 24 * 60 * 60 * 1000) ]

-- checkRepeatedCancellations, for a passenger
unfoldable pub check_cancellations : ℕ → CancelledBy → ℕ → Action Rides (Unit {0})
check_cancellations flag_id who passenger_id w =
    let count = length (keep (recently_cancelled w.bank.now passenger_id) w.rides) in
    let fresh : Fresh = record { now = w.bank.now; id = flag_id } in
    if is_passenger who
    then (ok tt, record w { flags = check_repeated_cancellations fresh passenger_id count w.flags })
    else pure tt w

-- cancelRide after its guards
unfoldable pub cancel_checked : Context → ℕ → CancelledBy → Ride → Action Rides Ride
cancel_checked context fee who original = do
  now ← gets (λ w. w.bank.now)
  let gone : Ride = record original {
    status = cancelled;
    cancelled_at = some now;
    cancelled_by = some who;
  }
  store gone
  charged ← charge_if_due context.limits fee who original.status gone
  store charged
  record_outcomes context charged
  emit (status_changed charged.id cancelled)
  check_cancellations context.passenger_flag_id who charged.passenger_id
  pure charged

-- cancelRide
unfoldable pub cancel_ride : Context → ℕ → ℕ → ℕ → Option CancelledBy → Action Rides Ride
cancel_ride context default_fee ride_id actor_id given = do
  due ← check_cancel ride_id actor_id given
  cancel_checked context (get_number context.settings cancellation_fee default_fee) due.1 due.0
