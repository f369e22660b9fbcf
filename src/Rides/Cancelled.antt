-- ===== src/Rides/Cancelled.antt =====
-- A cancellation leaves every served ride with its driver.
use ryda.Base.{
  pure, ℕ, ◌≡◌, refl, false, Option, some, ℤ, pos, arith, Result, ok, err, after, ◌>>=◌, ◌>>◌, save,
  every-save, Option-cases, inl, inr,
}
use ryda.Settings.{Settings}
use ryda.Trips.{RideStatus, cancelled, CancelledBy, Ride, ride_keyed}
use ryda.Wallets.{wallet_of, get_by_user_id, debit}
use ryda.Wallets.Entities.{ride_payment}
use ryda.Rides.Entities.{Rides, status_changed}
use ryda.Rides.Payment.{Context}
use ryda.Wallets.Entities as Ledger
use ryda.Rides.{store, emit}
use ryda.Settings.{get_number, cancellation_fee}
use ryda.Rides.Cancellation.{
  check_cancel, charge_fee, compensate, charge_if_due, record_outcomes, check_cancellations,
  cancel_checked, cancel_ride,
}
use ryda.Rides.Lifecycle.{fit, AllFit, is_served}

-- What the fee of a cancellation leaves: the rows of the rides, and the status of the ride.
abbrev Kept : Ride → Rides → Result Ride × Rides → Type 0
Kept r w (err _, w') = w'.rides ≡ w.rides
Kept r w (ok c, w') = (w'.rides ≡ w.rides) × (c.status ≡ r.status)

compensate_rides :
    (limits : Settings ℤ) (r : Ride) (driver_id : ℕ) (fee : ℤ) (w : Rides)
    → (after (compensate limits r driver_id fee) w).rides ≡ w.rides
unfolding compensate
compensate_rides limits r driver_id fee w = ground arith

fee-Kept :
    (limits : Settings ℤ) (fee : ℕ) (r : Ride) (driver_id : ℕ) (w : Rides)
    → Kept r w (charge_fee limits fee r driver_id w)
unfolding charge_fee get_by_user_id
fee-Kept limits fee r driver_id w = elim (Option-cases (wallet_of r.passenger_id w.bank.wallets)) [
  | inl missing ↦ ground arith
  | inr (wallet, e) ↦
      let taken = after (debit wallet.id (pos fee) Ledger.cancellation_fee (some r.id)) w.bank in
      ground (arith, compensate_rides limits r driver_id (pos fee) (record w { bank = taken }))
]

due-Kept :
    (limits : Settings ℤ) (fee : ℕ) (who : CancelledBy) (original : RideStatus) (r : Ride)
    (w : Rides)
    → Kept r w (charge_if_due limits fee who original r w)
unfolding charge_if_due
due-Kept limits fee who original r w = elim (Option-cases r.driver_id) [
  | inl nobody ↦ ground arith
  | inr (driver_id, e) ↦ ground (arith, fee-Kept limits fee r driver_id w)
]

outcomes_rides :
    (context : Context) (r : Ride) (w : Rides)
    → (after (record_outcomes context r) w).rides ≡ w.rides
unfolding record_outcomes
outcomes_rides context r w = ground arith

-- What follows the claim of a cancellation.
finish_cancel :
    (context : Context) (who : CancelledBy) (gone : Ride) (w : Rides)
    (charged : Result Ride × Rides)
    → is_served gone.status ≡ false
    → AllFit w
    → Kept gone w charged
    → AllFit (
        after
          ((λ _. charged) >>= λ c.
            store c
            >> (record_outcomes context c
                >> (emit (status_changed c.id cancelled)
                    >> (check_cancellations context.passenger_flag_id who c.passenger_id
                        >> pure c))))
          w)
unfolding check_cancellations
finish_cancel context who gone w (err _, v) s h k = grind (arith, k, h)
finish_cancel context who gone w (ok c, v) s h k = ground (
  arith,
  k,
  outcomes_rides context c (record v { rides = save c v.rides }),
  every-save fit c v.rides,
)

cancel_checked_fit :
    (context : Context) (fee : ℕ) (who : CancelledBy) (r : Ride) (w : Rides)
    → AllFit w
    → AllFit (after (cancel_checked context fee who r) w)
unfolding cancel_checked
cancel_checked_fit context fee who r w h =
    let gone : Ride = record r {
      status = cancelled;
      cancelled_at = some w.bank.now;
      cancelled_by = some who;
    } in
    let claimed : Rides = record w { rides = save gone w.rides } in
    finish_cancel context who gone claimed
      (charge_if_due context.limits fee who r.status gone claimed) refl
      (every-save fit gone w.rides h refl) (due-Kept context.limits fee who r.status gone claimed)

check_cancel_pure :
    (ride_id actor_id : ℕ) (given : Option CancelledBy) (w : Rides)
    → after (check_cancel ride_id actor_id given) w ≡ w
unfolding check_cancel
check_cancel_pure ride_id actor_id given w = ground arith

finish_checked :
    (context : Context) (fee : ℕ) (w : Rides) (due : Result (Ride × CancelledBy) × Rides)
    → due.1 ≡ w
    → AllFit w
    → AllFit (after ((λ _. due) >>= λ d. cancel_checked context fee d.1 d.0) w)
finish_checked context fee w (err _, v) e h = grind (arith, e, h)
finish_checked context fee w (ok (r, who), v) e h =
    cancel_checked_fit context fee who r v (grind (arith, e, h))

pub cancel_fit :
    (context : Context) (default_fee ride_id actor_id : ℕ) (given : Option CancelledBy) (w : Rides)
    → AllFit w
    → AllFit (after (cancel_ride context default_fee ride_id actor_id given) w)
unfolding cancel_ride
cancel_fit context default_fee ride_id actor_id given w h =
    finish_checked context (get_number context.settings cancellation_fee default_fee) w
      (check_cancel ride_id actor_id given w) (check_cancel_pure ride_id actor_id given w) h
