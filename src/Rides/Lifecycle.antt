-- ===== src/Rides/Lifecycle.antt =====
-- Who a ride belongs to through its life.
use ryda.Base.{
  ℕ, ◌≡◌, Bool, true, false, not, ◌||◌, is_some, some, ℤ, arith, after, result, lookup, every,
  every-save, every-lookup, Option-cases, Result-cases, inl, inr,
}
use ryda.Settings.{Settings}
use ryda.Trips.{
  RideStatus, searching, accepted, arriving, arrived, in_progress, completed, Ride, ride_keyed,
}
use ryda.Drivers.{reserve_for_trip}
use ryda.Drivers.Entities.{ride}
use ryda.Dispatch.{mark_accepted}
use ryda.Rides.Claims.{check_acceptance_pure}
use ryda.Rides.{
  is_user, Waiting, get_owned_by_driver, verify_pin, tried_pin, check_tip, pay_tip, add_tip,
  activate_scheduled_ride, mark_arrived, charge_waiting, waiting_fee_of, start_ride,
}
use ryda.Rides.Entities.{Rides}
use ryda.Rides.Acceptance.{claim_rows, claim, accept_ride}

-- The statuses in which a driver serves the ride, or served it.
abbrev pub is_served : RideStatus → Bool
is_served accepted = true
is_served arriving = true
is_served arrived = true
is_served in_progress = true
is_served completed = true
is_served _ = false

-- A ride that is served has a driver.
abbrev pub fit : Ride → Bool
fit r = not (is_served r.status) || is_some r.driver_id

abbrev pub AllFit : Rides → Type 0
AllFit w = every fit w.rides ≡ true

tip_fit :
    (limits : Settings ℤ) (r : Ride) (driver_id amount : ℕ) (w : Rides)
    → AllFit w
    → fit r ≡ true
    → AllFit (after (pay_tip limits r driver_id amount) w)
unfolding pay_tip
tip_fit limits r driver_id amount w h f =
    ground (arith, every-save fit (record r { tip_amount = amount }) w.rides h)

pub add_tip_fit :
    (limits : Settings ℤ) (ride_id passenger_id amount : ℕ) (w : Rides)
    → AllFit w
    → AllFit (after (add_tip limits ride_id passenger_id amount) w)
unfolding add_tip check_tip
add_tip_fit limits ride_id passenger_id amount w h = elim (Option-cases (lookup ride_id w.rides)) [
  | inl missing ↦ ground arith
  | inr (r, e) ↦ elim (Option-cases r.driver_id) [
    | inl nobody ↦ ground arith
    | inr (driver_id, ed) ↦
        ground (arith, tip_fit limits r driver_id amount w h, every-lookup fit ride_id w.rides e h)
  ]
]

pub pin_fit :
    (ride_id driver_id pin : ℕ) (w : Rides)
    → AllFit w
    → AllFit (after (verify_pin ride_id driver_id pin) w)
unfolding verify_pin
pin_fit ride_id driver_id pin w h = elim (Option-cases (lookup ride_id w.rides)) [
  | inl missing ↦ ground arith
  | inr (r, e) ↦ ground (
    arith,
    every-lookup fit ride_id w.rides e h,
    every-save fit (tried_pin (is_user pin r.verification_pin) r) w.rides h,
  )
]

pub arrive_fit :
    (ride_id driver_id : ℕ) (w : Rides)
    → AllFit w
    → AllFit (after (mark_arrived ride_id driver_id) w)
unfolding mark_arrived get_owned_by_driver
arrive_fit ride_id driver_id w h = elim (Option-cases (lookup ride_id w.rides)) [
  | inl missing ↦ ground arith
  | inr (r, e) ↦ ground (
    arith,
    every-lookup fit ride_id w.rides e h,
    every-save fit (record r { status = arrived; arrived_at = some w.bank.now }) w.rides h,
  )
]

pub start_fit :
    (tariff : Waiting) (ride_id driver_id : ℕ) (w : Rides)
    → AllFit w
    → AllFit (after (start_ride tariff ride_id driver_id) w)
unfolding start_ride get_owned_by_driver
start_fit tariff ride_id driver_id w h = elim (Option-cases (lookup ride_id w.rides)) [
  | inl missing ↦ ground arith
  | inr (r, e) ↦
      let begun : Ride = record r { status = in_progress; started_at = some w.bank.now } in
      ground (
        arith,
        every-lookup fit ride_id w.rides e h,
        every-save fit (charge_waiting (waiting_fee_of tariff w.bank.now r) begun) w.rides h,
      )
]

claim_fit :
    (log_id ride_id driver_id : ℕ) (w : Rides)
    → AllFit w
    → AllFit (after (claim log_id ride_id driver_id) w)
unfolding claim claim_rows
claim_fit log_id ride_id driver_id w h = elim (Option-cases (lookup ride_id w.rides)) [
  | inl missing ↦ ground arith
  | inr (r, e) ↦ elim (Result-cases (result (reserve_for_trip log_id driver_id ride) w.drivers)) [
    | inr (x, failed) ↦ ground arith
    | inl (p, reserved) ↦
        let saved : Ride = record r {
          driver_id = some driver_id;
          vehicle_id = p.active_vehicle_id;
          status = accepted;
          accepted_at = some w.bank.now;
        } in
        ground (arith, every-save fit saved w.rides h)
  ]
]

pub accept_fit :
    (settings : Settings ℕ) (bypass : Bool) (log_id ride_id driver_id : ℕ) (w : Rides)
    → AllFit w
    → AllFit (after (accept_ride settings bypass log_id ride_id driver_id) w)
unfolding accept_ride mark_accepted
accept_fit settings bypass log_id ride_id driver_id w h = ground (
  arith,
  check_acceptance_pure settings bypass ride_id driver_id w,
  claim_fit log_id ride_id driver_id w h,
)

pub activate_fit :
    (ride_id : ℕ) (w : Rides) → AllFit w → AllFit (after (activate_scheduled_ride ride_id) w)
unfolding activate_scheduled_ride
activate_fit ride_id w h = elim (Option-cases (lookup ride_id w.rides)) [
  | inl missing ↦ ground arith
  | inr (r, e) ↦ ground (arith, every-save fit (record r { status = searching }) w.rides h)
]
