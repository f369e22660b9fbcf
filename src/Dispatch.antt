-- ===== src/Dispatch.antt =====
-- src/dispatch/dispatch.service.ts with entities/ride-offer.entity.ts: the offers of a ride to drivers. The
-- ranked candidates that the search finds, the time an offer lasts and the generated ids are arguments;
-- distances and estimates of earnings are left out.
pub mod Pending
pub mod Airport
pub mod Queue
pub mod Auto
pub mod Exhaustion
mod Tests
use ryda.Base.{
  ℕ, suc, ◌+◌, ◌*◌, ◌==◌, ltb, leb, Bool, true, false, not, ◌&&◌, ◌||◌, is_some, Option, none, some,
  List, [], ◌∷◌, ◌++◌, map, if◌then◌else◌, length, keep, some_of, Action, Result, ok, err, ◌>>=◌,
  ◌>>◌, pure, gets, or_throw, throw_if, modify, Keyed, lookup, save, find_first, ride_not_found,
  cannot_redispatch,
}
use ryda.Trips.{Ride, ride_keyed, RideStatus, searching, no_driver_found, is_searching, is_manual}

-- RideOfferStatus
pub data OfferStatus : Type 0 where
  pending accepted declined expired superseded : OfferStatus

abbrev pub is_pending : OfferStatus → Bool
is_pending pending = true
is_pending _ = false

-- RideOffer
pub record Offer : Type 0 where
  pub id : ℕ
  pub ride_id : ℕ
  pub driver_user_id : ℕ
  pub status : OfferStatus
  pub expires_at : ℕ

-- 'ride.offered', 'ride.offer.declined' and 'ride.offer.expired', each of a ride and a driver, and
-- 'ride.status_changed'
pub data Event : Type 0 where
  offered offer_declined offer_expired : ℕ → ℕ → Event
  status_changed : ℕ → RideStatus → Event

pub record Dispatch : Type 0 where
  pub offers : List Offer
  pub rides : List Ride
  pub events : List Event
  pub now : ℕ

-- `offersRepo.update(where, { status })`
abbrev pub update : (Offer → Bool) → OfferStatus → List Offer → List Offer
update p status = map (λ o. if p o then record o { status = status } else o)

abbrev pub pending_for : ℕ → Offer → Bool
pending_for ride_id o = o.ride_id == ride_id && is_pending o.status

abbrev pub pending_of : ℕ → ℕ → Offer → Bool
pending_of ride_id driver_id o = pending_for ride_id o && o.driver_user_id == driver_id

-- markAccepted
unfoldable pub mark_accepted : ℕ → ℕ → Action Dispatch (Unit {0})
mark_accepted ride_id driver_id = do
  modify (λ d. record d { offers = update (pending_of ride_id driver_id) accepted d.offers })
  modify (λ d. record d { offers = update (pending_for ride_id) superseded d.offers })

-- withdrawOffer, and adminCancelOffer
unfoldable pub withdraw_offer : ℕ → Action Dispatch (Unit {0})
withdraw_offer ride_id =
    modify (λ d. record d { offers = update (pending_for ride_id) superseded d.offers })

-- markDeclined, with its event when a row was affected
unfoldable pub mark_declined : ℕ → ℕ → Action Dispatch (Unit {0})
mark_declined ride_id driver_id = modify λ d. record d {
  offers = update (pending_of ride_id driver_id) declined d.offers;
  events =
      if some_of (pending_of ride_id driver_id) d.offers
      then d.events ++ offer_declined ride_id driver_id ∷ []
      else d.events;
}

-- The row of a new offer and its event.
unfoldable pub add_offer : ℕ → ℕ → ℕ → ℕ → Action Dispatch Offer
add_offer timeout_seconds id ride_id driver_id d =
    let offer : Offer = record {
      id = id;
      ride_id = ride_id;
      driver_user_id = driver_id;
      status = pending;
      expires_at = d.now + timeout_seconds * 1000;
    } in
    pure offer (record d {
      offers = d.offers ++ offer ∷ [];
      events = d.events ++ offered ride_id driver_id ∷ [];
    })

-- offerToSpecificDriver
unfoldable pub offer_to_specific_driver : ℕ → ℕ → ℕ → ℕ → Action Dispatch Offer
offer_to_specific_driver timeout_seconds id ride_id driver_id =
    withdraw_offer ride_id >> add_offer timeout_seconds id ride_id driver_id

-- The statuses that rule a driver out: DECLINED, ACCEPTED and SUPERSEDED
abbrev pub rules_out : OfferStatus → Bool
rules_out declined = true
rules_out accepted = true
rules_out superseded = true
rules_out _ = false

-- The first of the ranked candidates who is not ruled out.
abbrev pub next_candidate : ℕ → List ℕ → List Offer → Option ℕ
next_candidate ride_id candidates offers =
    find_first
      (λ c.
        not (
          some_of (λ o. o.ride_id == ride_id && rules_out o.status && o.driver_user_id == c)
            offers))
      candidates

-- offerToNearestDriver
unfoldable pub offer_to_nearest_driver : ℕ → ℕ → List ℕ → ℕ → Action Dispatch (Option Offer)
offer_to_nearest_driver timeout_seconds id candidates ride_id d = elim (lookup ride_id d.rides) [
  | none ↦ pure none d
  | some ride ↦
      if not (is_searching ride.status)
      then pure none d
      else elim (next_candidate ride_id candidates d.offers) [
        | none ↦ pure none d
        | some driver_id ↦ (add_offer timeout_seconds id ride_id driver_id >>= λ o. pure (some o)) d
      ]
]

-- isLive
abbrev pub is_live : ℕ → Offer → Bool
is_live now o = is_pending o.status && ltb now o.expires_at

abbrev pub live : ℕ → Option Offer → Option Offer
live now none = none
live now (some o) = if is_live now o then some o else none

-- getMyPendingOffer
unfoldable pub get_my_pending_offer : ℕ → ℕ → Dispatch → Option Offer
get_my_pending_offer ride_id driver_id d =
    live d.now (find_first (pending_of ride_id driver_id) d.offers)

-- getPendingOfferForRide
unfoldable pub get_pending_offer_for_ride : ℕ → Dispatch → Option Offer
get_pending_offer_for_ride ride_id d = live d.now (find_first (pending_for ride_id) d.offers)

-- hasEverHadOffer
unfoldable pub has_ever_had_offer : ℕ → Dispatch → Bool
has_ever_had_offer ride_id d = some_of (λ o. o.ride_id == ride_id) d.offers

abbrev pub is_stale : ℕ → Offer → Bool
is_stale now o = is_pending o.status && ltb o.expires_at now

-- expireStaleOffersAndReassign, with an event for each offer that expired
unfoldable pub expire_stale_offers : Action Dispatch (Unit {0})
expire_stale_offers = modify λ d. record d {
  offers = update (is_stale d.now) expired d.offers;
  events =
      d.events
      ++ map (λ o. offer_expired o.ride_id o.driver_user_id) (keep (is_stale d.now) d.offers);
}

-- A ride that waits for its passenger's choice since before the cutoff.
abbrev pub is_abandoned : ℕ → Ride → Bool
is_abandoned cutoff r =
    is_searching r.status && is_manual r.dispatch_mode && ltb r.created_at cutoff

-- expireStaleManualSearches
unfoldable pub expire_stale_manual_searches : ℕ → Action Dispatch (Unit {0})
expire_stale_manual_searches cutoff = modify λ d. record d {
  rides =
      map (λ r. if is_abandoned cutoff r then record r { status = no_driver_found } else r) d.rides;
  events =
      d.events
      ++ map (λ r. status_changed r.id no_driver_found) (keep (is_abandoned cutoff) d.rides);
}

abbrev pub can_redispatch : RideStatus → Bool
can_redispatch searching = true
can_redispatch no_driver_found = true
can_redispatch _ = false

-- redispatchForAdmin
unfoldable pub redispatch_for_admin : ℕ → ℕ → List ℕ → ℕ → Action Dispatch (Option Offer)
redispatch_for_admin timeout_seconds id candidates ride_id = do
  ride ← or_throw (← gets (λ d. lookup ride_id d.rides)) ride_not_found
  throw_if (not (can_redispatch ride.status)) cannot_redispatch
  modify (λ d. record d { rides = save (record ride { status = searching }) d.rides })
  offer_to_nearest_driver timeout_seconds id candidates ride_id
