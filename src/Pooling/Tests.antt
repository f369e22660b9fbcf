-- ===== src/Pooling/Tests.antt =====
-- Runs of the pooling methods, and examples of the theorems about them.
use ryda.Base.{
  ℕ, ◌+◌, ◌-◌, ◌≡◌, ◌≤◌, refl, true, false, none, some, [], ◌∷◌, arith, after, ok, inr, lookup,
  length,
}
use ryda.Trips.{economy, auto, pool_matching, is_searching}
use ryda.Pooling.{
  discount_of, Config, claim_one, claim_both, pair_rides, is_near, is_worth, plan_with, match_among,
  try_match, request_pool,
}
use ryda.Pooling.Unpooling.{unpool_ride}
use ryda.Pooling.Entities.{Point, PoolRide, pool_ride_keyed, Pool}
use ryda.Pooling.Routes.{permutations, is_valid, way, best_of, Plan, best_route_plan}
use ryda.Pooling.Shortest.{Route, bbaa, stops_of, best_route_plan-shortest}
use ryda.Pooling.Pairs.{pair_once}
use ryda.Pooling.Fares.{unpool_ride-pair_rides}

-- Metres along a grid of streets
abbrev distance : Point → Point → ℕ
distance p q = (p.lat - q.lat) + (q.lat - p.lat) + ((p.lng - q.lng) + (q.lng - p.lng))

abbrev at : ℕ → ℕ → Point
at lat lng = record { lat = lat; lng = lng }

abbrev ride_of : ℕ → Point → Point → ℕ → PoolRide
ride_of id pickup dropoff fare = record {
  id = id;
  driver_id = none;
  vehicle_id = none;
  category = economy;
  status = pool_matching;
  dispatch_mode = auto;
  city = some 1;
  pickup = pickup;
  dropoff = dropoff;
  total_fare = fare;
  discount = 0;
  pool_discount = 0;
  pool_group_id = none;
  accepted_at = none;
  created_at = id;
}

abbrev first : PoolRide
first = ride_of 1 (at 0 0) (at 0 900) 100000

abbrev second : PoolRide
second = ride_of 2 (at 0 100) (at 0 800) 80000

abbrev waiting : Pool
waiting = record {
  rides = first ∷ second ∷ [];
  groups = [];
  windows = [];
  dispatched_rides = [];
  now = 9;
}

abbrev plan : Plan
plan = record {
  sequence = [];
  total_distance = 900;
  total_duration = 1800;
  distance_a = 900;
  distance_b = 700;
}

abbrev limits : Config
limits = record { max_pickup_detour = some 2000; max_detour = some 3000; discount_share = 2500 }

quarter_off : discount_of 2500 100000 ≡ 25000
unfolding discount_of
quarter_off = refl

all_permutations : length (permutations {A = ℕ} 3 (0 ∷ 1 ∷ 2 ∷ 3 ∷ [])) ≡ 24
unfolding permutations
all_permutations = refl

-- The older ride is handed to automatic dispatch.
paired_run : (after (request_pool distance limits 1 2) waiting).dispatched_rides ≡ 1 ∷ []
unfolding request_pool try_match match_among plan_with is_near is_worth best_route_plan best_of
    is_valid way permutations pair_rides claim_both claim_one
paired_run = refl

best_route_plan-shortest_example :
    (found : Plan) × (r : Route) × (best_route_plan distance first second ≡ some found)
    × (found.sequence ≡ stops_of first second r)
    × (found.total_distance ≡ way distance (stops_of first second r))
    × (found.total_distance ≤ way distance (stops_of first second bbaa))
best_route_plan-shortest_example = best_route_plan-shortest distance first second bbaa

pair_once_example :
    let p' = after (pair_rides 2500 1 first second plan) waiting in
    pair_rides 2500 2 second first plan p' ≡ (ok false, p')
unfolding pair_rides claim_both claim_one
pair_once_example = pair_once 2500 1 2 first second second first plan plan waiting refl refl

unpool_ride-pair_rides_example :
    let p' = after (pair_rides 2500 1 first second plan) waiting in
    let alone = after (unpool_ride 2) p' in
    (r' : PoolRide) × (lookup 2 alone.rides ≡ some r')
    × (is_searching r'.status ≡ true)
    × (r'.pool_group_id ≡ none)
    × (r'.total_fare ≡ 80000)
    × (r'.discount ≡ 0)
unpool_ride-pair_rides_example =
    unpool_ride-pair_rides 2500 1 first second second plan waiting (omega arith)
      (refl, refl, refl, refl, refl) (inr refl)
