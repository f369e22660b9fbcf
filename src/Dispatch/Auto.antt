-- ===== src/Dispatch/Auto.antt =====
-- src/dispatch/auto-dispatch.service.ts: automatic dispatch offers a ride to one driver after the other. The
-- drivers whom the search finds, in the order of their rank and before those who were tried are taken
-- out, are an argument.
use ryda.Base.{
  ℕ, ◌==◌, Bool, not, ◌&&◌, is_some, none, some, List, [], ◌∷◌, ◌++◌, map, if◌then◌else◌, keep,
  some_of, lookup, Action, ◌>>◌, pure, modify, ◌>>=◌, Option, true, false,
}
use ryda.Trips.{Ride, ride_keyed, is_searching, is_manual, no_driver_found}
use ryda.Dispatch.{
  Offer, status_changed, Dispatch, offer_to_specific_driver, get_pending_offer_for_ride,
}
use ryda.Dispatch.Airport.{Board, on_offers, try_offer_via_airport_queue}

-- `getTriedDriverUserIds(rideId)` has the driver.
abbrev pub was_tried : ℕ → List Offer → ℕ → Bool
was_tried ride_id offers driver_id =
    some_of (λ o. o.ride_id == ride_id && o.driver_user_id == driver_id) offers

-- The drivers of the search who were not tried yet.
abbrev pub untried : ℕ → List ℕ → List Offer → List ℕ
untried ride_id pool offers = keep (λ c. not (was_tried ride_id offers c)) pool

abbrev pub exhausted : ℕ → Ride → Bool
exhausted ride_id r = r.id == ride_id && is_searching r.status

-- markNoDriverFound
unfoldable pub mark_no_driver_found : ℕ → Action Dispatch (Unit {0})
mark_no_driver_found ride_id = modify λ d. record d {
  rides =
      map (λ r. if exhausted ride_id r then record r { status = no_driver_found } else r) d.rides;
  events =
      if some_of (exhausted ride_id) d.rides
      then d.events ++ status_changed ride_id no_driver_found ∷ []
      else d.events;
}

-- The offer to the best of the candidates, or the end of the search.
unfoldable pub offer_best : ℕ → ℕ → ℕ → List ℕ → Action Dispatch (Unit {0})
offer_best timeout id ride_id [] = mark_no_driver_found ride_id
offer_best timeout id ride_id (best ∷ _) =
    offer_to_specific_driver timeout id ride_id best >> pure tt

-- The search, where no offer was made from the queue of an airport.
abbrev pub offer_from_search : ℕ → ℕ → List ℕ → ℕ → Bool → Action Board (Unit {0})
offer_from_search timeout id pool ride_id true b = pure tt b
offer_from_search timeout id pool ride_id false b =
    on_offers (offer_best timeout id ride_id (untried ride_id pool b.dispatch.offers)) b

-- offerNextCandidate, with the airport that contains the pickup, if one does
unfoldable pub offer_next_candidate : ℕ → ℕ → Option ℕ → List ℕ → ℕ → Action Board (Unit {0})
offer_next_candidate timeout id airport pool ride_id b = elim (lookup ride_id b.dispatch.rides) [
  | none ↦ pure tt b
  | some ride ↦
      if not (is_searching ride.status)
      then pure tt b
      else if is_manual ride.dispatch_mode
      then pure tt b
      else if is_some (get_pending_offer_for_ride ride_id b.dispatch)
      then pure tt b
      else (try_offer_via_airport_queue timeout id airport ride
            >>= offer_from_search timeout id pool ride_id)
          b
]
