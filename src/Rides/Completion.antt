-- ===== src/Rides/Completion.antt =====
-- A completion that fails costs nobody anything, and leaves the ride to be completed again.
use ryda.Rides.Refusals.{SameMoney, settle_by-Free}
use ryda.Base.{
  ℕ, ◌≡◌, refl, true, Option, some, [], ◌∷◌, ◌++◌, ℤ, pos, ◌-ℤ◌, arith, Result, ok, err, Error,
  after, result, ◌>>=◌, lookup, lookup-save_self, save,
}
use ryda.Trips.{completed, Ride, ride_keyed}
use ryda.Corporate.Entities.{account_keyed}
use ryda.Drivers.Entities.{Profile}
use ryda.Rides.Settlement.{
  settle_or_revert, reverted, complete_at, complete_and_settle, vehicle_category_of,
  completed_at_commission, commission_percent_of, commission_amount_of, is_in_progress,
}
use ryda.Rides.Payment.{Context, Gateway, settle_by}
use ryda.Rides.Entities.{Rides, status_changed}

-- The ride is in the table and can be completed.
abbrev pub InProgress : ℕ → Rides → Type 0
InProgress id w = (r : Ride) × (lookup id w.rides ≡ some r) × (is_in_progress r.status ≡ true)

settle_or_revert_fails :
    (context : Context) (gateway : Gateway) (ride : Ride) (p : Profile) (driver_id : ℕ)
    (earnings : ℤ) (w : Rides) {e : Error}
    → result (settle_or_revert context gateway ride p driver_id earnings) w ≡ err e
    → let w' = after (settle_or_revert context gateway ride p driver_id earnings) w in
      SameMoney w w' × InProgress ride.id w'
unfolding settle_or_revert
settle_or_revert_fails context gateway ride p driver_id earnings w h =
    let settled = settle_by ride.payment_method context gateway ride p driver_id earnings in
    (
      grind (arith, settle_by-Free ride.payment_method context gateway ride p driver_id earnings w),
      (
        reverted ride,
        grind (arith, lookup-save_self (reverted ride) (after settled w).rides),
        refl,
      ),
    )

complete_at_fails :
    (percent : ℕ) (context : Context) (gateway : Gateway) (ride : Ride) (p : Profile)
    (driver_id : ℕ) (w : Rides) {e : Error}
    → result (complete_at percent context gateway ride p driver_id) w ≡ err e
    → let w' = after (complete_at percent context gateway ride p driver_id) w in
      SameMoney w w' × InProgress ride.id w'
unfolding complete_at completed_at_commission
complete_at_fails percent context gateway ride p driver_id w {e} h =
    let done = completed_at_commission w.bank.now percent ride in
    let booked : Rides = record w {
      rides = save done w.rides;
      events = w.events ++ status_changed ride.id completed ∷ [];
    } in
    settle_or_revert_fails context gateway done p driver_id
      (pos ride.total_fare -ℤ pos (commission_amount_of percent ride.total_fare)) booked {e = e} h

pub vehicle_category_pure : (p : Profile) (w : Rides) → after (vehicle_category_of p) w ≡ w
unfolding vehicle_category_of
vehicle_category_pure p w = ground arith

finish_complete :
    (context : Context) (gateway : Gateway) (ride : Ride) (p : Profile) (driver_id : ℕ) (w : Rides)
    (category : Result (Option ℕ) × Rides) {e : Error}
    → lookup ride.id w.rides ≡ some ride
    → is_in_progress ride.status ≡ true
    → category.1 ≡ w
    → let completed =
        ((λ _. category) >>= λ c.
        complete_at (commission_percent_of context p c ride) context gateway ride p driver_id)
          w in
      completed.0 ≡ err e → SameMoney w (completed.1) × InProgress ride.id (completed.1)
finish_complete context gateway ride p driver_id w (err x, v) {e} l s h k = grind (arith, h)
finish_complete context gateway ride p driver_id w (ok c, v) {e} l s h k =
    let (m, i) =
      complete_at_fails (commission_percent_of context p c ride) context gateway ride p driver_id v
        {e = e} k in
    (grind (arith, m, h), i)

-- A completion that throws in its settlement, whatever the payment method, has moved no money: every
-- wallet, fleet wallet, corporate budget and debt is as it was, and the ride is in progress again.
pub complete_and_settle_fails :
    (context : Context) (gateway : Gateway) (ride : Ride) (p : Profile) (driver_id : ℕ) (w : Rides)
    {e : Error}
    → lookup ride.id w.rides ≡ some ride
    → is_in_progress ride.status ≡ true
    → result (complete_and_settle context gateway ride p driver_id) w ≡ err e
    → let w' = after (complete_and_settle context gateway ride p driver_id) w in
      SameMoney w w' × InProgress ride.id w'
unfolding complete_and_settle
complete_and_settle_fails context gateway ride p driver_id w {e} l s h =
    finish_complete context gateway ride p driver_id w (vehicle_category_of p w) {e = e} l s
      (vehicle_category_pure p w) h
