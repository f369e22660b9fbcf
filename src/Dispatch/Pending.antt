-- ===== src/Dispatch/Pending.antt =====
-- How many offers of a ride are open at once.
use ryda.Base.{
  ℕ, suc, ◌+◌, ◌*◌, ◌≤◌, ◌≡◌, refl, Bool, false, some, List, [], ◌∷◌, arith, after, length,
  count-snoc, keep, lookup, lookup-save_self, key-lookup,
}
use ryda.Trips.{Ride, ride_keyed, searching}
use ryda.Dispatch.{
  Offer, OfferStatus, is_pending, pending, superseded, accepted, declined, expired, Dispatch,
  update, pending_for, pending_of, mark_accepted, withdraw_offer, mark_declined, add_offer,
  offer_to_specific_driver, offer_to_nearest_driver, next_candidate, is_stale, expire_stale_offers,
  redispatch_for_admin,
}

-- The number of pending offers of a ride.
abbrev pub open_offers : ℕ → Dispatch → ℕ
open_offers ride_id d = length (keep (pending_for ride_id) d.offers)

-- An update to another status opens no offer, and closes those that pass its test.
update_shrinks :
    (ride_id : ℕ) (p : Offer → Bool) (s : OfferStatus) (os : List Offer)
    → is_pending s ≡ false
    → length (keep (pending_for ride_id) (update p s os)) ≤ length (keep (pending_for ride_id) os)
update_shrinks ride_id p s [] e = omega arith
update_shrinks ride_id p s (o ∷ os) e = ground (arith, update_shrinks ride_id p s os e)

update_closes :
    (ride_id : ℕ) (s : OfferStatus) (os : List Offer)
    → is_pending s ≡ false
    → length (keep (pending_for ride_id) (update (pending_for ride_id) s os)) ≡ 0
update_closes ride_id s [] e = refl
update_closes ride_id s (o ∷ os) e = ground (arith, update_closes ride_id s os e)

-- The calls that the passenger, the driver, the sweep and an operator make on the offers.
pub data Call : Type 0 where
  select : ℕ → ℕ → ℕ → ℕ → Call
  accept decline : ℕ → ℕ → Call
  withdraw : ℕ → Call
  sweep : Call
  wait : ℕ → Call

abbrev pub run : Call → Dispatch → Dispatch
run (select timeout id ride_id driver_id) d =
    after (offer_to_specific_driver timeout id ride_id driver_id) d
run (accept ride_id driver_id) d = after (mark_accepted ride_id driver_id) d
run (decline ride_id driver_id) d = after (mark_declined ride_id driver_id) d
run (withdraw ride_id) d = after (withdraw_offer ride_id) d
run sweep d = after expire_stale_offers d
run (wait time) d = record d { now = d.now + time }

abbrev pub replay : List Call → Dispatch → Dispatch
replay [] d = d
replay (c ∷ cs) d = replay cs (run c d)

run-one :
    (ride_id : ℕ) (c : Call) (d : Dispatch)
    → open_offers ride_id d ≤ 1
    → open_offers ride_id (run c d) ≤ 1
unfolding offer_to_specific_driver withdraw_offer add_offer mark_accepted mark_declined
    expire_stale_offers
run-one ride_id (select timeout id r driver_id) d h =
    let closed = update (pending_for r) superseded d.offers in
    let offer : Offer = record {
      id = id;
      ride_id = r;
      driver_user_id = driver_id;
      status = pending;
      expires_at = d.now + timeout * 1000;
    } in
    ground (
      arith,
      count-snoc (pending_for ride_id) closed offer,
      update_shrinks ride_id (pending_for r) superseded d.offers refl,
      update_closes ride_id superseded d.offers refl,
    )
run-one ride_id (accept r driver_id) d h = omega (
  arith,
  update_shrinks ride_id (pending_of r driver_id) accepted d.offers refl,
  update_shrinks ride_id (pending_for r) superseded
      (update (pending_of r driver_id) accepted d.offers) refl,
)
run-one ride_id (decline r driver_id) d h =
    omega (arith, update_shrinks ride_id (pending_of r driver_id) declined d.offers refl)
run-one ride_id (withdraw r) d h =
    omega (arith, update_shrinks ride_id (pending_for r) superseded d.offers refl)
run-one ride_id sweep d h =
    omega (arith, update_shrinks ride_id (is_stale d.now) expired d.offers refl)
run-one ride_id (wait time) d h = h

-- However the passenger's selections, accepts, declines, withdrawals and sweeps follow each other, a ride
-- that has at most one pending offer never gets a second one.
pub replay_one_pending :
    (ride_id : ℕ) (cs : List Call) (d : Dispatch)
    → open_offers ride_id d ≤ 1
    → open_offers ride_id (replay cs d) ≤ 1
replay_one_pending ride_id [] d h = h
replay_one_pending ride_id (c ∷ cs) d h =
    replay_one_pending ride_id cs (run c d) (run-one ride_id c d h)

-- An administrator's redispatch adds an offer to those that are pending, so a ride can have more than
-- one at a time.
redispatch_adds :
    (timeout id ride_id driver_id : ℕ) (candidates : List ℕ) (d : Dispatch) {ride : Ride}
    → lookup ride_id d.rides ≡ some ride
    → ride.status ≡ searching
    → next_candidate ride_id candidates d.offers ≡ some driver_id
    → open_offers ride_id (after (redispatch_for_admin timeout id candidates ride_id) d)
      ≡ suc (open_offers ride_id d)
unfolding redispatch_for_admin offer_to_nearest_driver add_offer
redispatch_adds timeout id ride_id driver_id candidates d {ride} e s n =
    let offer : Offer = record {
      id = id;
      ride_id = ride_id;
      driver_user_id = driver_id;
      status = pending;
      expires_at = d.now + timeout * 1000;
    } in
    ground (
      arith,
      key-lookup ride_id d.rides e,
      lookup-save_self (record ride { status = searching }) d.rides,
      count-snoc (pending_for ride_id) d.offers offer,
    )
