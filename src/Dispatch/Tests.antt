-- ===== src/Dispatch/Tests.antt =====
-- Runs of the dispatch methods, and examples of the theorems about them.
use ryda.Base.{ℕ, some, map, after, ◌≡◌, ◌≤◌, refl, false, none, [], ◌∷◌, arith}
use ryda.Trips.{Ride, economy, cash, searching, auto}
use ryda.Dispatch.{
  pending, Dispatch, offer_to_specific_driver, withdraw_offer, add_offer,
  get_pending_offer_for_ride,
}
use ryda.Dispatch.Airport.{Board, QueueStatus, try_offer_via_airport_queue}
use ryda.Dispatch.Auto.{offer_next_candidate}
use ryda.Rides.Acceptance.{does_vehicle_match}
use ryda.Drivers.Entities.{Availability, offline, online_for_rides, Approval, silver, Profile, car}
use ryda.Dispatch.Pending.{open_offers, replay, replay_one_pending, select, decline, sweep, wait}
use ryda.Dispatch.Exhaustion.{Ended, rounds, rounds_end}

abbrev waiting : Ride
waiting = record {
  id = 1;
  passenger_id = 20;
  driver_id = none;
  vehicle_id = none;
  category = economy;
  status = searching;
  dispatch_mode = auto;
  city = none;
  waiting_fee = 0;
  cancellation_fee = none;
  total_fare = 200000;
  tip_amount = 0;
  verification_pin = none;
  is_pin_verified = false;
  pin_attempt_count = 0;
  commission_percent = none;
  commission_amount = none;
  driver_earnings = none;
  earnings_settled = false;
  payment_method = cash;
  passenger_rating = none;
  driver_rating = none;
  cancelled_by = none;
  accepted_at = none;
  arrived_at = none;
  started_at = none;
  completed_at = none;
  cancelled_at = none;
  created_at = 3;
}

abbrev board : Dispatch
board = record { offers = []; rides = waiting ∷ []; events = []; now = 5 }

-- The board with an offer to driver 10.
abbrev offered : Dispatch
offered = record board {
  offers =
      record { id = 1; ride_id = 1; driver_user_id = 10; status = pending; expires_at = 9000 } ∷ [];
}

replay_one_pending_example :
    open_offers 1 (
      replay (select 20 2 1 11 ∷ wait 30000 ∷ sweep ∷ select 20 3 1 12 ∷ decline 1 12 ∷ []) offered)
    ≤ 1
replay_one_pending_example =
    replay_one_pending 1
      (select 20 2 1 11 ∷ wait 30000 ∷ sweep ∷ select 20 3 1 12 ∷ decline 1 12 ∷ []) offered
      (omega arith)

-- The profile of a driver who is online, or not.
abbrev profile_in : Availability → ℕ → Profile
profile_in availability user_id = record {
  id = user_id;
  user_id = user_id;
  approval = Approval.accepted;
  availability = availability;
  last_online = some online_for_rides;
  active_vehicle_id = none;
  rating = 500;
  rating_count = 0;
  total_trips = 0;
  completed_trips = 0;
  cancelled_trips = 0;
  level = silver;
  fleet_company_id = none;
  commission_override_percent = none;
}

-- Driver 12 is next at airport 6 and has gone offline, driver 13 waits there and is online.
abbrev at_airport : Board
at_airport = record {
  dispatch = board;
  queue =
      map
        (λ d. record {
          id = d;
          airport_id = 6;
          driver_user_id = d;
          vehicle_category = some car;
          status = QueueStatus.waiting;
        })
        (12 ∷ 13 ∷ []);
  profiles = profile_in offline 12 ∷ profile_in online_for_rides 13 ∷ [];
}

rounds_end_example : Ended 1 (rounds 5 20 1 (some 6) (10 ∷ 11 ∷ []) 1 at_airport).dispatch
rounds_end_example =
    rounds_end 5 20 1 1 (some 6) (10 ∷ 11 ∷ []) at_airport (waiting, refl, refl, refl, refl)
      (omega arith)

-- The driver who is online is asked.
asked_at_airport :
    map
      (λ o. o.driver_user_id)
      (after (offer_next_candidate 20 1 (some 6) (10 ∷ 11 ∷ []) 1) at_airport).dispatch.offers
    ≡ 13 ∷ []
unfolding offer_next_candidate try_offer_via_airport_queue offer_to_specific_driver withdraw_offer
    add_offer does_vehicle_match get_pending_offer_for_ride
asked_at_airport = refl
