-- ===== src/Pooling/Shortest.antt =====
-- The plan is the shortest of the six routes on which each rider is picked up before being dropped off.
use mathlib.Core.List.{Memᴰ}
use ryda.Base.{
  keep, ap, sym, subst, ◌∙◌, if◌then◌else◌, ℕ, ◌≡◌, ◌≤◌, refl, Bool, true, ◌&&◌, Option, none, some,
  List, [], ◌∷◌, map, ltb, arith, Bool-cases, inl, inr, ◌⊎◌,
}
use ryda.Pooling.Entities.{Point, PoolRide, RouteStop}
use ryda.Pooling.Routes.{
  permutations, is_valid, pickup_of, dropoff_of, stop_at, way, best_of, Plan, plan_of,
  best_route_plan,
}

-- In the order of the stops: a and b are the ends of the two rides.
pub data Route : Type 0 where
  aabb abab abba baab baba bbaa : Route

abbrev pub stops_of : PoolRide → PoolRide → Route → List RouteStop
stops_of a b aabb = pickup_of a ∷ dropoff_of a ∷ pickup_of b ∷ dropoff_of b ∷ []
stops_of a b abab = pickup_of a ∷ pickup_of b ∷ dropoff_of a ∷ dropoff_of b ∷ []
stops_of a b abba = pickup_of a ∷ pickup_of b ∷ dropoff_of b ∷ dropoff_of a ∷ []
stops_of a b baab = pickup_of b ∷ pickup_of a ∷ dropoff_of a ∷ dropoff_of b ∷ []
stops_of a b baba = pickup_of b ∷ pickup_of a ∷ dropoff_of b ∷ dropoff_of a ∷ []
stops_of a b bbaa = pickup_of b ∷ dropoff_of b ∷ pickup_of a ∷ dropoff_of a ∷ []

-- The orders by the numbers of the stops.
abbrev order_of : Route → List ℕ
order_of aabb = 0 ∷ 1 ∷ 2 ∷ 3 ∷ []
order_of abab = 0 ∷ 2 ∷ 1 ∷ 3 ∷ []
order_of abba = 0 ∷ 2 ∷ 3 ∷ 1 ∷ []
order_of baab = 2 ∷ 0 ∷ 1 ∷ 3 ∷ []
order_of baba = 2 ∷ 0 ∷ 3 ∷ 1 ∷ []
order_of bbaa = 2 ∷ 3 ∷ 0 ∷ 1 ∷ []

order_stops : (a b : PoolRide) (r : Route) → map (stop_at a b) (order_of r) ≡ stops_of a b r
order_stops a b aabb = refl
order_stops a b abab = refl
order_stops a b abba = refl
order_stops a b baab = refl
order_stops a b baba = refl
order_stops a b bbaa = refl

abbrev all_orders : List (List ℕ)
all_orders =
    order_of aabb
    ∷ order_of abab
    ∷ order_of abba
    ∷ order_of baab
    ∷ order_of baba
    ∷ order_of bbaa
    ∷ []

valid_orders : keep is_valid (permutations 3 (0 ∷ 1 ∷ 2 ∷ 3 ∷ [])) ≡ all_orders
unfolding permutations is_valid
valid_orders = refl

route_Mem : (r : Route) → Memᴰ (order_of r) all_orders
route_Mem aabb = Memᴰ.head refl
route_Mem abab = Memᴰ.tail (Memᴰ.head refl)
route_Mem abba = Memᴰ.tail (Memᴰ.tail (Memᴰ.head refl))
route_Mem baab = Memᴰ.tail (Memᴰ.tail (Memᴰ.tail (Memᴰ.head refl)))
route_Mem baba = Memᴰ.tail (Memᴰ.tail (Memᴰ.tail (Memᴰ.tail (Memᴰ.head refl))))
route_Mem bbaa = Memᴰ.tail (Memᴰ.tail (Memᴰ.tail (Memᴰ.tail (Memᴰ.tail (Memᴰ.head refl)))))

best_of-keep :
    (total : List ℕ → ℕ) (best : Option (List ℕ)) (orders : List (List ℕ))
    → best_of total best orders ≡ best_of total best (keep is_valid orders)
unfolding best_of
best_of-keep total best [] = refl
best_of-keep total best (o ∷ orders) =
    let kept = keep is_valid orders in
    let is_better : Bool = elim best [ none ↦ true | some found ↦ ltb (total o) (total found) ] in
    elim (Bool-cases (is_valid o)) [
      | inl valid ↦
          best_of-keep total (if is_valid o && is_better then some o else best) orders
          ∙ ap (λ (b : Bool). best_of total best (if b then o ∷ kept else kept)) (sym valid)
      | inr other ↦
          ap (λ (b : Bool). best_of total (if b && is_better then some o else best) orders) other
          ∙ best_of-keep total best orders
          ∙ ap (λ (b : Bool). best_of total best (if b then o ∷ kept else kept)) (sym other)
    ]

-- What the loop ends with, from a first best one: the shortest of all.
abbrev Shortest : (List ℕ → ℕ) → List ℕ → List (List ℕ) → Type 0
Shortest total best orders =
    (m : List ℕ) × (best_of total (some best) orders ≡ some m)
    × (total m ≤ total best)
    × ((o : List ℕ) → Memᴰ o orders → is_valid o ≡ true → total m ≤ total o)
    × ((m ≡ best) ⊎ Memᴰ m orders)

least-cons :
    (total : List ℕ → ℕ) (m o : List ℕ) (orders : List (List ℕ))
    → (is_valid o ≡ true → total m ≤ total o)
    → ((x : List ℕ) → Memᴰ x orders → is_valid x ≡ true → total m ≤ total x)
    → (x : List ℕ) → Memᴰ x (o ∷ orders)
    → is_valid x ≡ true
    → total m ≤ total x
least-cons total m o orders h all x (Memᴰ.head e) v = rw e (h (rw e at v))
least-cons total m o orders h all x (Memᴰ.tail i) v = all x i v

best_of-Shortest :
    (total : List ℕ → ℕ) (best : List ℕ) (orders : List (List ℕ)) → Shortest total best orders
unfolding best_of
best_of-Shortest total best [] = (best, refl, omega arith, (λ o i v. elim i [ ]), inl refl)
best_of-Shortest total best (o ∷ orders) =
    elim (Bool-cases (is_valid o && ltb (total o) (total best))) [
      | inl better ↦
          let (m, e, le, all, from) = best_of-Shortest total o orders in
          (
            m,
            rw better e,
            ground arith,
            least-cons total m o orders (λ v. le) all,
            inr (elim from [ inl q ↦ Memᴰ.head q | inr i ↦ Memᴰ.tail i ]),
          )
      | inr worse ↦
          let (m, e, le, all, from) = best_of-Shortest total best orders in
          (
            m,
            rw worse e,
            le,
            least-cons total m o orders (λ v. ground arith) all,
            elim from [ inl q ↦ inl q | inr i ↦ inr (Memᴰ.tail i) ],
          )
    ]

-- The length of a way, for an order of the stops
abbrev total_of : (Point → Point → ℕ) → PoolRide → PoolRide → List ℕ → ℕ
total_of distance a b order = way distance (map (stop_at a b) order)

route_of : {m : List ℕ} → Memᴰ m all_orders → (r : Route) × (m ≡ order_of r)
route_of (Memᴰ.head e) = (aabb, e)
route_of (Memᴰ.tail (Memᴰ.head e)) = (abab, e)
route_of (Memᴰ.tail (Memᴰ.tail (Memᴰ.head e))) = (abba, e)
route_of (Memᴰ.tail (Memᴰ.tail (Memᴰ.tail (Memᴰ.head e)))) = (baab, e)
route_of (Memᴰ.tail (Memᴰ.tail (Memᴰ.tail (Memᴰ.tail (Memᴰ.head e))))) = (baba, e)
route_of (Memᴰ.tail (Memᴰ.tail (Memᴰ.tail (Memᴰ.tail (Memᴰ.tail (Memᴰ.head e)))))) = (bbaa, e)
route_of (Memᴰ.tail (Memᴰ.tail (Memᴰ.tail (Memᴰ.tail (Memᴰ.tail (Memᴰ.tail i)))))) = elim i [ ]

valid_route : (r : Route) → is_valid (order_of r) ≡ true
unfolding is_valid
valid_route aabb = refl
valid_route abab = refl
valid_route abba = refl
valid_route baab = refl
valid_route baba = refl
valid_route bbaa = refl

abbrev other_orders : List (List ℕ)
other_orders = order_of abab ∷ order_of abba ∷ order_of baab ∷ order_of baba ∷ order_of bbaa ∷ []

-- The first of the valid orders is taken, and then compared with the others.
best_of_routes :
    (total : List ℕ → ℕ)
    → best_of total none (permutations 3 (0 ∷ 1 ∷ 2 ∷ 3 ∷ []))
      ≡ best_of total (some (order_of aabb)) other_orders
unfolding best_of is_valid
best_of_routes total =
    best_of-keep total none (permutations 3 (0 ∷ 1 ∷ 2 ∷ 3 ∷ []))
    ∙ ap (best_of total none) valid_orders

best_order :
    (total : List ℕ → ℕ) (other : Route)
    → (m : List ℕ) × (r : Route) × (best_of total none (permutations 3 (0 ∷ 1 ∷ 2 ∷ 3 ∷ []))
        ≡ some m)
      × (m ≡ order_of r)
      × (total m ≤ total (order_of other))
best_order total other =
    let (m, e, le, all, from) = best_of-Shortest total (order_of aabb) other_orders in
    let (r, same) = route_of {m = m} (elim from [ inl q ↦ Memᴰ.head q | inr i ↦ Memᴰ.tail i ]) in
    (
      m,
      r,
      best_of_routes total ∙ e,
      same,
      least-cons total m (order_of aabb) other_orders (λ v. le) all (order_of other)
          (route_Mem other) (valid_route other),
    )

-- For any two rides there is a plan: its stops are those of one of the six routes on which each rider
-- is picked up before being dropped off, and no other of the six is shorter.
pub best_route_plan-shortest :
    (distance : Point → Point → ℕ) (a b : PoolRide) (other : Route)
    → (plan : Plan) × (r : Route) × (best_route_plan distance a b ≡ some plan)
      × (plan.sequence ≡ stops_of a b r)
      × (plan.total_distance ≡ way distance (stops_of a b r))
      × (plan.total_distance ≤ way distance (stops_of a b other))
unfolding best_route_plan
best_route_plan-shortest distance a b other =
    let (m, r, e, same, least) = best_order (total_of distance a b) other in
    let stops : map (stop_at a b) m ≡ stops_of a b r =
      ap (map (stop_at a b)) same ∙ order_stops a b r in
    (
      plan_of distance a b m,
      r,
      ap
          (λ (x : Option (List ℕ)). elim x as (λ x. Option Plan) [
            | none ↦ none
            | some order ↦ some (plan_of distance a b order)
          ])
          e,
      stops,
      ap (way distance) stops,
      subst (λ (x : List RouteStop). total_of distance a b m ≤ way distance x)
          (order_stops a b other) least,
    )
