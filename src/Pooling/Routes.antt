-- ===== src/Pooling/Routes.antt =====
-- src/pooling/pool-matching.service.ts: bestRoutePlan, the shortest order of the four stops of two rides. The
-- distance of two points, which the code computes by the haversine formula, is an argument.
use ryda.Base.{
  ℕ, zero, suc, ◌+◌, ◌*◌, ◌-◌, ltb, Bool, true, false, ◌||◌, ◌&&◌, not, Option, none, some, List,
  [], ◌∷◌, ◌++◌, map, if◌then◌else◌, ◌==◌,
}
use ryda.Pooling.Entities.{Point, PoolRide, RouteStop}

-- The turns of the generator `permutations`: each element in front, with the rest in its order.
abbrev pub turns : {A : Type 0} → List A → List (A × List A)
turns [] = []
turns (x ∷ xs) = (x, xs) ∷ map (λ t. (t.0, x ∷ t.1)) (turns xs)

abbrev pub join : {A : Type 0} → List (List A) → List A
join [] = []
join (xs ∷ rest) = xs ++ join rest

-- permutations, of a list with n elements more than one
unfoldable pub permutations : {A : Type 0} → ℕ → List A → List (List A)
permutations zero xs = xs ∷ []
permutations (suc n) xs = join (map (λ t. map (λ p. t.0 ∷ p) (permutations n (t.1))) (turns xs))

-- indexOf, for an element that is there
abbrev pub index_of : ℕ → List ℕ → ℕ
index_of x [] = 0
index_of x (y ∷ ys) = let rest = index_of x ys in if x == y then 0 else suc rest

-- The pickup of each ride, stops 0 and 2, is before its dropoff, stops 1 and 3.
unfoldable pub is_valid : List ℕ → Bool
is_valid order =
    not (ltb (index_of 1 order) (index_of 0 order) || ltb (index_of 3 order) (index_of 2 order))

abbrev pub pickup_of : PoolRide → RouteStop
pickup_of r = record { is_pickup = true; ride_id = r.id; place = r.pickup }

abbrev pub dropoff_of : PoolRide → RouteStop
dropoff_of r = record { is_pickup = false; ride_id = r.id; place = r.dropoff }

-- `stops[i]`
abbrev pub stop_at : PoolRide → PoolRide → ℕ → RouteStop
stop_at a b zero = pickup_of a
stop_at a b (suc zero) = dropoff_of a
stop_at a b (suc (suc zero)) = pickup_of b
stop_at a b (suc (suc (suc _))) = dropoff_of b

-- The length of the way along stops
unfoldable pub way : (Point → Point → ℕ) → List RouteStop → ℕ
way distance [] = 0
way distance (s ∷ []) = 0
way distance (s ∷ t ∷ rest) = distance s.place t.place + way distance (t ∷ rest)

-- The loop over the orders, with the best one so far
unfoldable pub best_of : (List ℕ → ℕ) → Option (List ℕ) → List (List ℕ) → Option (List ℕ)
best_of total best [] = best
best_of total best (order ∷ orders) =
    let is_better : Bool = elim best [
      | none ↦ true
      | some found ↦ ltb (total order) (total found)
    ] in
    best_of total (if is_valid order && is_better then some order else best) orders

abbrev pub drop : ℕ → List RouteStop → List RouteStop
drop zero xs = xs
drop (suc n) [] = []
drop (suc n) (x ∷ xs) = drop n xs

abbrev pub take : ℕ → List RouteStop → List RouteStop
take zero xs = []
take (suc n) [] = []
take (suc n) (x ∷ xs) = x ∷ take n xs

-- legDistance: from one stop of the sequence to a later one
abbrev pub leg_distance : (Point → Point → ℕ) → List RouteStop → ℕ → ℕ → ℕ
leg_distance distance sequence first last =
    way distance (take (suc (last - first)) (drop first sequence))

-- The sequence of the stops, the length of the whole way, and the lengths of the two riders' own ways
pub record Plan : Type 0 where
  pub sequence : List RouteStop
  pub total_distance : ℕ
  pub total_duration : ℕ
  pub distance_a : ℕ
  pub distance_b : ℕ

abbrev pub plan_of : (Point → Point → ℕ) → PoolRide → PoolRide → List ℕ → Plan
plan_of distance a b order =
    let sequence = map (stop_at a b) order in
    record {
      sequence = sequence;
      total_distance = way distance sequence;
      total_duration = 2 * way distance sequence;
      distance_a = leg_distance distance sequence (index_of 0 order) (index_of 1 order);
      distance_b = leg_distance distance sequence (index_of 2 order) (index_of 3 order);
    }

-- bestRoutePlan
unfoldable pub best_route_plan : (Point → Point → ℕ) → PoolRide → PoolRide → Option Plan
best_route_plan distance a b =
    elim (best_of (λ order. way distance (map (stop_at a b) order)) none
      (permutations 3 (0 ∷ 1 ∷ 2 ∷ 3 ∷ []))) [
        | none ↦ none
        | some order ↦ some (plan_of distance a b order)
      ]
