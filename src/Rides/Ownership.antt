-- ===== src/Rides/Ownership.antt =====
-- Whether a ride that is served has a driver, after calls on rides that follow each other in any way.
use ryda.Base.{
  pure, ℕ, ◌==◌, ◌≡◌, refl, Bool, true, false, not, is_some, Option, some, List, [], ◌∷◌, ℤ, arith,
  Result, ok, err, after, ◌>>=◌, ◌>>◌, lookup, every, every-lookup, every-save, keep, Option-cases,
  inl, inr,
}
use ryda.Settings.{Settings}
use ryda.Trips.{CancelledBy, RideStatus, Ride, ride_keyed}
use ryda.Drivers.Entities.{Profile}
use ryda.Rides.{
  Waiting, get_owned_by_driver, delete_for_admin, force_status_for_admin, rate_driver,
  rate_passenger, verify_pin, add_tip, activate_scheduled_ride, mark_arrived, start_ride,
}
use ryda.Rides.Entities.{Rides}
use ryda.Rides.Acceptance.{accept_ride}
use ryda.Rides.Settlement.{
  complete_at, complete_and_settle, close_trip, complete_owned, complete_ride,
  handle_payment_confirmed,
}
use ryda.Rides.Payment.{Context, Gateway}
use ryda.Rides.Cancellation.{cancel_ride}
use ryda.Rides.Lifecycle.{
  is_served, fit, AllFit, add_tip_fit, pin_fit, arrive_fit, start_fit, accept_fit, activate_fit,
}
use ryda.Drivers.{profile_of}
use ryda.Rides.Settlement.{vehicle_category_of, commission_percent_of}
use ryda.Rides.Completion.{vehicle_category_pure}
use ryda.Rides.Cancelled.{cancel_fit}
use ryda.Rides.Served.{earnings_fit, complete_at_fit}

finish_complete :
    (context : Context) (gateway : Gateway) (r : Ride) (p : Profile) (driver_id : ℕ) (w : Rides)
    (category : Result (Option ℕ) × Rides)
    → category.1 ≡ w
    → AllFit w
    → is_some r.driver_id ≡ true
    → AllFit (
        after
          ((λ _. category) >>= λ c.
            complete_at (commission_percent_of context p c r) context gateway r p driver_id)
          w)
finish_complete context gateway r p driver_id w (err _, v) e h d = grind (arith, e, h)
finish_complete context gateway r p driver_id w (ok c, v) e h d =
    complete_at_fit (commission_percent_of context p c r) context gateway r p driver_id v
      (grind (arith, e, h)) d

complete_and_settle_fit :
    (context : Context) (gateway : Gateway) (r : Ride) (p : Profile) (driver_id : ℕ) (w : Rides)
    → AllFit w
    → is_some r.driver_id ≡ true
    → AllFit (after (complete_and_settle context gateway r p driver_id) w)
unfolding complete_and_settle
complete_and_settle_fit context gateway r p driver_id w h d =
    finish_complete context gateway r p driver_id w (vehicle_category_of p w)
      (vehicle_category_pure p w) h d

close_trip_rides :
    (context : Context) (r : Ride) (p : Profile) (driver_id : ℕ) (w : Rides)
    → (after (close_trip context r p driver_id) w).rides ≡ w.rides
unfolding close_trip
close_trip_rides context r p driver_id w = ground arith

finish_trip :
    (context : Context) (p : Profile) (driver_id : ℕ) (w : Rides) (settled : Result Ride × Rides)
    → AllFit (settled.1)
    → AllFit (after ((λ _. settled) >>= λ c. close_trip context c p driver_id >> pure c) w)
finish_trip context p driver_id w (err _, v) h = h
finish_trip context p driver_id w (ok c, v) h =
    ground (arith, close_trip_rides context c p driver_id v)

complete_owned_fit :
    (context : Context) (gateway : Gateway) (r : Ride) (p : Profile) (driver_id : ℕ) (w : Rides)
    → AllFit w
    → is_some r.driver_id ≡ true
    → AllFit (after (complete_owned context gateway r p driver_id) w)
unfolding complete_owned
complete_owned_fit context gateway r p driver_id w h d =
    finish_trip context p driver_id w (complete_and_settle context gateway r p driver_id w)
      (complete_and_settle_fit context gateway r p driver_id w h d)

complete_fit :
    (context : Context) (gateway : Gateway) (ride_id driver_id : ℕ) (w : Rides)
    → AllFit w
    → AllFit (after (complete_ride context gateway ride_id driver_id) w)
unfolding complete_ride get_owned_by_driver
complete_fit context gateway ride_id driver_id w h = elim (Option-cases (lookup ride_id w.rides)) [
  | inl missing ↦ ground arith
  | inr (r, e) ↦ elim (Option-cases (profile_of driver_id w.drivers.profiles)) [
    | inl none_here ↦ ground arith
    | inr (p, ep) ↦ ground (arith, complete_owned_fit context gateway r p driver_id w h)
  ]
]

confirm_fit :
    (limits : Settings ℤ) (ride_id : ℕ) (w : Rides)
    → AllFit w
    → AllFit (after (handle_payment_confirmed limits ride_id) w)
unfolding handle_payment_confirmed
confirm_fit limits ride_id w h = elim (Option-cases (lookup ride_id w.rides)) [
  | inl missing ↦ ground arith
  | inr (r, e) ↦ elim (Option-cases r.driver_id) [
    | inl nobody ↦ ground arith
    | inr (driver_id, ed) ↦ elim (Option-cases r.driver_earnings) [
      | inl nothing ↦ ground arith
      | inr (earnings, ee) ↦ elim (Option-cases (profile_of driver_id w.drivers.profiles)) [
        | inl none_here ↦ ground arith
        | inr (p, ep) ↦
            ground
              (arith, earnings_fit limits r p earnings w h, every-lookup fit ride_id w.rides e h)
      ]
    ]
  ]
]

every-keep : (p q : Ride → Bool) (rs : List Ride) → every p rs ≡ true → every p (keep q rs) ≡ true
every-keep p q [] h = refl
every-keep p q (r ∷ rs) h = ground (arith, every-keep p q rs)

delete_fit : (id : ℕ) (w : Rides) → AllFit w → AllFit (after (delete_for_admin id) w)
unfolding delete_for_admin
delete_fit id w h = ground (arith, every-keep fit (λ r. not (r.id == id)) w.rides h)

force_fit :
    (log_id id : ℕ) (s : RideStatus) (w : Rides)
    → is_served s ≡ false
    → AllFit w
    → AllFit (after (force_status_for_admin log_id id s) w)
unfolding force_status_for_admin
force_fit log_id id s w u h = elim (Option-cases (lookup id w.rides)) [
  | inl missing ↦ ground arith
  | inr (r, e) ↦ elim (Option-cases r.driver_id) [
    | inl nobody ↦ ground (arith, every-save fit (record r { status = s }) w.rides h)
    | inr (driver_id, ed) ↦ ground (arith, every-save fit (record r { status = s }) w.rides h)
  ]
]

rate_driver_fit :
    (id passenger_id rating : ℕ) (w : Rides)
    → AllFit w
    → AllFit (after (rate_driver id passenger_id rating) w)
unfolding rate_driver
rate_driver_fit id passenger_id rating w h = elim (Option-cases (lookup id w.rides)) [
  | inl missing ↦ ground arith
  | inr (r, e) ↦ elim (Option-cases r.driver_id) [
    | inl nobody ↦ ground arith
    | inr (driver_id, ed) ↦ ground (
      arith,
      every-lookup fit id w.rides e h,
      every-save fit (record r { driver_rating = some rating }) w.rides h,
    )
  ]
]

rate_passenger_fit :
    (id driver_id rating : ℕ) (w : Rides)
    → AllFit w
    → AllFit (after (rate_passenger id driver_id rating) w)
unfolding rate_passenger get_owned_by_driver
rate_passenger_fit id driver_id rating w h = elim (Option-cases (lookup id w.rides)) [
  | inl missing ↦ ground arith
  | inr (r, e) ↦ ground (
    arith,
    every-lookup fit id w.rides e h,
    every-save fit (record r { passenger_rating = some rating }) w.rides h,
  )
]

-- The calls that passengers, drivers, the payment provider and administrators make. A status that an
-- administrator forces is none in which a driver serves the ride.
pub data Call : Type 0 where
  activate : ℕ → Call
  accept : Settings ℕ → Bool → ℕ → ℕ → ℕ → Call
  arrive : ℕ → ℕ → Call
  start : Waiting → ℕ → ℕ → Call
  guess_pin : ℕ → ℕ → ℕ → Call
  complete : Context → Gateway → ℕ → ℕ → Call
  confirm : Settings ℤ → ℕ → Call
  tip : Settings ℤ → ℕ → ℕ → ℕ → Call
  cancel : Context → ℕ → ℕ → ℕ → Option CancelledBy → Call
  delete : ℕ → Call
  force : (log_id id : ℕ) (s : RideStatus) → is_served s ≡ false → Call
  rate_the_driver rate_the_passenger : (id user_id rating : ℕ) → Call

abbrev pub run : Call → Rides → Rides
run (activate id) w = after (activate_scheduled_ride id) w
run (accept s bypass log_id id driver_id) w = after (accept_ride s bypass log_id id driver_id) w
run (arrive id driver_id) w = after (mark_arrived id driver_id) w
run (start tariff id driver_id) w = after (start_ride tariff id driver_id) w
run (guess_pin id driver_id pin) w = after (verify_pin id driver_id pin) w
run (complete c g id driver_id) w = after (complete_ride c g id driver_id) w
run (confirm limits id) w = after (handle_payment_confirmed limits id) w
run (tip limits id passenger_id amount) w = after (add_tip limits id passenger_id amount) w
run (cancel c fee id actor_id given) w = after (cancel_ride c fee id actor_id given) w
run (delete id) w = after (delete_for_admin id) w
run (force log_id id s _) w = after (force_status_for_admin log_id id s) w
run (rate_the_driver id user_id rating) w = after (rate_driver id user_id rating) w
run (rate_the_passenger id user_id rating) w = after (rate_passenger id user_id rating) w

run_fit : (c : Call) (w : Rides) → AllFit w → AllFit (run c w)
run_fit (activate id) w h = activate_fit id w h
run_fit (accept s bypass log_id id driver_id) w h = accept_fit s bypass log_id id driver_id w h
run_fit (arrive id driver_id) w h = arrive_fit id driver_id w h
run_fit (start tariff id driver_id) w h = start_fit tariff id driver_id w h
run_fit (guess_pin id driver_id pin) w h = pin_fit id driver_id pin w h
run_fit (complete c g id driver_id) w h = complete_fit c g id driver_id w h
run_fit (confirm limits id) w h = confirm_fit limits id w h
run_fit (tip limits id passenger_id amount) w h = add_tip_fit limits id passenger_id amount w h
run_fit (cancel c fee id actor_id given) w h = cancel_fit c fee id actor_id given w h
run_fit (delete id) w h = delete_fit id w h
run_fit (force log_id id s u) w h = force_fit log_id id s w u h
run_fit (rate_the_driver id user_id rating) w h = rate_driver_fit id user_id rating w h
run_fit (rate_the_passenger id user_id rating) w h = rate_passenger_fit id user_id rating w h

abbrev pub run_all : List Call → Rides → Rides
run_all [] w = w
run_all (c ∷ cs) w = run_all cs (run c w)

-- However the calls on rides follow each other, and however each of them ends, a ride that is accepted,
-- arriving, arrived, in progress or completed has a driver, where every ride had one so before. The
-- calls are those of passengers, drivers and the payment provider, and an administrator's; one of
-- these statuses is not forced on a ride by an administrator.
pub run_all_fit : (cs : List Call) (w : Rides) → AllFit w → AllFit (run_all cs w)
run_all_fit [] w h = h
run_all_fit (c ∷ cs) w h = run_all_fit cs (run c w) (run_fit c w h)
