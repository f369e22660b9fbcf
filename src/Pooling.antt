-- ===== src/Pooling.antt =====
-- src/pooling/pool-matching.service.ts: the matching of shared rides, their discount, and what undoes it. The
-- settings and the distance of two points are arguments. A share of a fare is in hundredths of a
-- percent and at most the whole, and a ride's discount holds its pool discount, so no difference
-- below is cut off.
pub mod Entities
pub mod Routes
pub mod Shortest
pub mod Unpooling
pub mod Pairs
pub mod Fares
mod Tests
use ryda.Base.{
  ℕ, ◌+◌, ◌-◌, ◌*◌, ◌/◌, ◌==◌, ltb, leb, Bool, true, false, not, ◌&&◌, ◌||◌, Option, none, some,
  List, [], ◌∷◌, ◌++◌, keep, if◌then◌else◌, Action, ◌>>=◌, ◌>>◌, pure, gets, or_throw, throw_if,
  modify, transaction, catch, lookup, save, ride_not_found, pool_claim_race,
}
use ryda.Trips.{accepted, searching, is_searching, auto, same_category}
use Entities.{
  Point, PoolRide, pool_ride_keyed, is_matching, is_over, GroupStatus, matched, dispatched, unwound,
  PoolGroup, pool_group_keyed, Pool,
}
use Routes.{Plan, best_route_plan}

-- The settings under 'pooling', each of which may be missing, and the discount as a share of the fare
pub record Config : Type 0 where
  pub max_pickup_detour : Option ℕ
  pub max_detour : Option ℕ
  pub discount_share : ℕ

abbrev pub store : PoolRide → Action Pool (Unit {0})
store r = modify λ p. record p { rides = save r p.rides }

abbrev pub store_group : PoolGroup → Action Pool (Unit {0})
store_group g = modify λ p. record p { groups = save g p.groups }

-- `void autoDispatchService.startForRide(id)`
abbrev pub start_for_ride : ℕ → Action Pool (Unit {0})
start_for_ride id = modify λ p. record p { dispatched_rides = p.dispatched_rides ++ id ∷ [] }

-- `x > limit`, which is false where the limit is missing
abbrev pub exceeds : ℕ → Option ℕ → Bool
exceeds x none = false
exceeds x (some limit) = ltb limit x

abbrev pub same_city : Option ℕ → Option ℕ → Bool
same_city none none = true
same_city (some c) (some d) = c == d
same_city _ _ = false

-- `solo > 0 ? (shared - solo) / solo : 0` above the limit, in hundredths of a percent
abbrev pub detours : Option ℕ → ℕ → ℕ → Bool
detours none solo shared = false
detours (some limit) solo shared = ltb 0 solo && ltb (limit * solo) ((shared - solo) * 10000)

-- `this.round(totalFare * discountFraction)`, in kobo
unfoldable pub discount_of : ℕ → ℕ → ℕ
discount_of share fare = (2 * (fare * share) + 10000) / 20000

-- The columns that the conditional update of one ride sets, on the row that it finds
abbrev pub claimed : ℕ → ℕ → PoolRide → PoolRide → PoolRide
claimed share group_id ride current = record current {
  status = searching;
  dispatch_mode = auto;
  pool_group_id = some group_id;
  pool_discount = discount_of share ride.total_fare;
  total_fare = ride.total_fare - discount_of share ride.total_fare;
  discount = ride.discount + discount_of share ride.total_fare;
}

unfoldable pub claim_one : ℕ → ℕ → PoolRide → Action Pool (Unit {0})
claim_one share group_id ride = do
  current ← or_throw (← gets (λ p. lookup ride.id p.rides)) pool_claim_race
  throw_if (not (is_matching current.status)) pool_claim_race
  store (claimed share group_id ride current)

abbrev pub or_city : Option ℕ → Option ℕ → Option ℕ
or_city none city = city
or_city (some c) city = some c

abbrev pub new_group : ℕ → PoolRide → PoolRide → Plan → ℕ → PoolGroup
new_group group_id a b plan now = record {
  id = group_id;
  status = matched;
  anchor_ride_id = a.id;
  partner_ride_id = b.id;
  city = or_city a.city b.city;
  route_sequence = plan.sequence;
  total_distance = plan.total_distance;
  total_duration = plan.total_duration;
  matched_at = some now;
}

-- The transaction of pairRides
unfoldable pub claim_both : ℕ → ℕ → PoolRide → PoolRide → Plan → Action Pool Bool
claim_both share group_id a b plan = do
  now ← gets (λ p. p.now)
  store_group (new_group group_id a b plan now)
  claim_one share group_id a
  claim_one share group_id b
  start_for_ride (if leb a.created_at b.created_at then a.id else b.id)
  pure true

-- pairRides
unfoldable pub pair_rides : ℕ → ℕ → PoolRide → PoolRide → Plan → Action Pool Bool
pair_rides share group_id a b plan =
    catch (transaction (claim_both share group_id a b plan)) (λ _. pure false)

-- The tests of tryMatch on a candidate before its plan
unfoldable pub is_near : (Point → Point → ℕ) → Config → PoolRide → PoolRide → Bool
is_near distance config ride candidate =
    not (candidate.id == ride.id)
    && same_city ride.city candidate.city
    && not (exceeds (distance ride.pickup candidate.pickup) config.max_pickup_detour)

-- The test of tryMatch on the plan
unfoldable pub is_worth : (Point → Point → ℕ) → Config → PoolRide → PoolRide → Plan → Bool
is_worth distance config ride candidate plan = not (
    detours config.max_detour (distance ride.pickup ride.dropoff) plan.distance_a
    || detours config.max_detour (distance candidate.pickup candidate.dropoff) plan.distance_b)

-- The plan with a candidate, unless a test rules the candidate out
unfoldable pub plan_with : (Point → Point → ℕ) → Config → PoolRide → PoolRide → Option Plan
plan_with distance config ride candidate =
    if is_near distance config ride candidate
    then elim (best_route_plan distance ride candidate) [
      | none ↦ none
      | some plan ↦ if is_worth distance config ride candidate plan then some plan else none
    ]
    else none

-- The loop of tryMatch over the candidates
unfoldable pub match_among :
    (Point → Point → ℕ) → Config → ℕ → PoolRide → List PoolRide → Action Pool Bool
match_among distance config group_id ride [] = pure false
match_among distance config group_id ride (candidate ∷ candidates) =
    let rest = match_among distance config group_id ride candidates in
    elim (plan_with distance config ride candidate) [
      | none ↦ rest
      | some plan ↦ pair_rides config.discount_share group_id ride candidate plan >>= λ paired.
          if paired then pure true else rest
    ]

-- tryMatch, on the rides in the order of their creation
unfoldable pub try_match : (Point → Point → ℕ) → Config → ℕ → PoolRide → Action Pool Bool
try_match distance config group_id ride p =
    match_among distance config group_id ride
      (keep (λ r. is_matching r.status && same_category r.category ride.category) p.rides) p

-- requestPool
unfoldable pub request_pool : (Point → Point → ℕ) → Config → ℕ → ℕ → Action Pool (Unit {0})
request_pool distance config group_id ride_id = do
  ride ← or_throw (← gets (λ p. lookup ride_id p.rides)) ride_not_found
  found ← try_match distance config group_id ride
  if found then pure tt else modify λ p. record p { windows = p.windows ++ ride_id ∷ [] }

-- resolveWindow, for a ride that was read while it waited
unfoldable pub resolve_waiting :
    (Point → Point → ℕ) → Config → ℕ → PoolRide → Action Pool (Unit {0})
resolve_waiting distance config group_id ride = do
  found ← try_match distance config group_id ride
  (if found
      then pure tt
      else store (record ride { status = searching; dispatch_mode = auto })
        >> start_for_ride ride.id)

-- resolveWindow
unfoldable pub resolve_window : (Point → Point → ℕ) → Config → ℕ → ℕ → Action Pool (Unit {0})
resolve_window distance config group_id ride_id p = elim (lookup ride_id p.rides) [
  | none ↦ pure tt p
  | some ride ↦
      if is_matching ride.status then resolve_waiting distance config group_id ride p else pure tt p
]

-- onRideCancelledBeforeMatch
unfoldable pub on_ride_cancelled_before_match : ℕ → Action Pool (Unit {0})
on_ride_cancelled_before_match ride_id =
    modify λ p. record p { windows = keep (λ id. not (id == ride_id)) p.windows }
