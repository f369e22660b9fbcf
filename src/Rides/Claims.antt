-- ===== src/Rides/Claims.antt =====
-- What accepting a ride does, and that a ride goes to one driver.
use ryda.Base.{
  ℕ, ◌≡◌, Bool, true, some, arith, after, result, ok, err, lookup, lookup-save_self, key-lookup,
  Option-cases, inl, inr, Result-cases, ◌⊎◌, just_taken, driver_unavailable, Error,
}
use ryda.Settings.{Settings}
use ryda.Trips.{Ride, ride_keyed, accepted}
use ryda.Users.{User, user_keyed}
use ryda.Drivers.{reserve_for_trip}
use ryda.Drivers.Entities.{ride, Profile}
use ryda.Rides.Acceptance.{
  is_open, check_offer, check_driver, check_debt, claim_rows, claim, check_acceptance, accept_ride,
}
use ryda.Rides.Entities.{Rides}

pub check_acceptance_pure :
    (settings : Settings ℕ) (bypass : Bool) (ride_id driver_id : ℕ) (w : Rides)
    → after (check_acceptance settings bypass ride_id driver_id) w ≡ w
unfolding check_acceptance check_offer check_driver check_debt
check_acceptance_pure settings bypass ride_id driver_id w = ground arith

-- What a claim that went through did.
pub claim_ok :
    (log_id ride_id driver_id : ℕ) (w : Rides) {r : Ride}
    → result (claim log_id ride_id driver_id) w ≡ ok r
    → (old : Ride) × (p : Profile) × (lookup ride_id w.rides ≡ some old)
      × (is_open old.status ≡ true)
      × (result (reserve_for_trip log_id driver_id ride) w.drivers ≡ ok p)
      × (r ≡ record old {
        driver_id = some driver_id;
        vehicle_id = p.active_vehicle_id;
        status = accepted;
        accepted_at = some w.bank.now;
      })
      × (lookup ride_id (after (claim log_id ride_id driver_id) w).rides ≡ some r)
unfolding claim claim_rows
claim_ok log_id ride_id driver_id w {r} h = elim (Option-cases (lookup ride_id w.rides)) [
  | inl missing ↦ absurd (ground arith)
  | inr (old, e) ↦ elim (Result-cases (result (reserve_for_trip log_id driver_id ride) w.drivers)) [
    | inr (x, ex) ↦ absurd (ground arith)
    | inl (p, ep) ↦
        let saved : Ride = record old {
          driver_id = some driver_id;
          vehicle_id = p.active_vehicle_id;
          status = accepted;
          accepted_at = some w.bank.now;
        } in
        (
          old,
          p,
          e,
          ground arith,
          ep,
          ground arith,
          ground (arith, lookup-save_self saved w.rides, key-lookup ride_id w.rides e),
        )
  ]
]

refused_when_taken :
    (log_id ride_id driver_id : ℕ) (w : Rides) {r : Ride}
    → lookup ride_id w.rides ≡ some r
    → r.status ≡ accepted
    → let second = result (claim log_id ride_id driver_id) w in
      (second ≡ err just_taken) ⊎ (second ≡ err driver_unavailable)
unfolding claim claim_rows reserve_for_trip
refused_when_taken log_id ride_id driver_id w {r} e s = ground arith

-- However two drivers' accepts of a ride interleave, it goes to one of them: once a claim went through,
-- every other claim of that ride is refused, because the ride is taken or the driver is not free.
pub claim_once :
    (log_id log_id' ride_id driver_id driver_id' : ℕ) (w : Rides) {r : Ride}
    → result (claim log_id ride_id driver_id) w ≡ ok r
    → let second =
        result (claim log_id' ride_id driver_id') (after (claim log_id ride_id driver_id) w) in
      (second ≡ err just_taken) ⊎ (second ≡ err driver_unavailable)
unfolding claim claim_rows
claim_once log_id log_id' ride_id driver_id driver_id' w {r} h =
    let (old, p, e, o, ep, er, el) = claim_ok log_id ride_id driver_id w {r = r} h in
    refused_when_taken log_id' ride_id driver_id' (after (claim log_id ride_id driver_id) w) el
      (ground arith)

claim_users :
    (log_id ride_id driver_id : ℕ) (w : Rides)
    → (after (claim log_id ride_id driver_id) w).users ≡ w.users
unfolding claim claim_rows
claim_users log_id ride_id driver_id w = ground arith

-- An accept by a user who exists writes nothing when it fails: neither the driver nor the ride is
-- claimed.
accept_ride_atomic :
    (settings : Settings ℕ) (bypass : Bool) (log_id ride_id driver_id : ℕ) (w : Rides) {u : User}
    {e : Error}
    → lookup driver_id w.users ≡ some u
    → result (accept_ride settings bypass log_id ride_id driver_id) w ≡ err e
    → after (accept_ride settings bypass log_id ride_id driver_id) w ≡ w
unfolding accept_ride claim
accept_ride_atomic settings bypass log_id ride_id driver_id w u h = ground (
  arith,
  check_acceptance_pure settings bypass ride_id driver_id w,
  claim_users log_id ride_id driver_id w,
)
