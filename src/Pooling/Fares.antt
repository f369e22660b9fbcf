-- ===== src/Pooling/Fares.antt =====
-- What pairing does to the fares, and what unpooling gives back.
use ryda.Base.{
  ℕ, ◌==◌, ◌≡◌, ◌≤◌, refl, true, false, none, some, arith, after, ok, ◌⊎◌, lookup, lookup-save,
  lookup-save_self, inl, inr, share_le, subst, sym, Result, Bool, if◌then◌else◌, leb, save, ap, ◌∙◌,
  ◌>>◌,
}
use ryda.Trips.{is_searching}
use ryda.Pooling.{
  discount_of, claimed, new_group, claim_one, claim_both, pair_rides, store, store_group,
  start_for_ride,
}
use ryda.Pooling.Unpooling.{solo, unpool_ride, unwind}
use ryda.Pooling.Entities.{PoolRide, pool_ride_keyed, is_matching, Pool, pool_group_keyed}
use ryda.Pooling.Routes.{Plan}

discount_le : (share fare : ℕ) → share ≤ 10000 → discount_of share fare ≤ fare
unfolding discount_of
discount_le share fare h = share_le share fare h

-- Two different rides that wait, as the tables hold them.
abbrev pub BothWait : PoolRide → PoolRide → Pool → Type 0
BothWait a b p =
    (lookup a.id p.rides ≡ some a)
    × (lookup b.id p.rides ≡ some b)
    × (is_matching a.status ≡ true)
    × (is_matching b.status ≡ true)
    × ((b.id == a.id) ≡ false)

claim_waiting :
    (share group_id : ℕ) (r : PoolRide) (p : Pool)
    → lookup r.id p.rides ≡ some r
    → is_matching r.status ≡ true
    → claim_one share group_id r p ≡ (ok tt, after (store (claimed share group_id r r)) p)
unfolding claim_one
claim_waiting share group_id r p e m = ground arith

-- The rows that pairing leaves
abbrev paired_at : ℕ → ℕ → PoolRide → PoolRide → Plan → Pool → Pool
paired_at share group_id a b plan p =
    after
      (store_group (new_group group_id a b plan p.now)
        >> (store (claimed share group_id a a)
            >> (store (claimed share group_id b b)
                >> start_for_ride (if leb a.created_at b.created_at then a.id else b.id))))
      p

pair_waiting :
    (share group_id : ℕ) (a b : PoolRide) (plan : Plan) (p : Pool)
    → BothWait a b p
    → pair_rides share group_id a b plan p ≡ (ok true, paired_at share group_id a b plan p)
unfolding pair_rides claim_both
pair_waiting share group_id a b plan p (ea, eb, ma, mb, ne) =
    let p1 : Pool = after (store_group (new_group group_id a b plan p.now)) p in
    let p2 : Pool = after (store (claimed share group_id a a)) p1 in
    ground (
      arith,
      claim_waiting share group_id a p1 ea ma,
      claim_waiting share group_id b p2
          (lookup-save b.id (claimed share group_id a a) p.rides ∙ ground (arith, ne, eb)) mb,
    )

-- Either row after pairing, in the order in which they are saved
paired_row :
    (share group_id : ℕ) (a b r : PoolRide) (plan : Plan) (p : Pool)
    → (b.id == a.id) ≡ false
    → (r ≡ a) ⊎ (r ≡ b)
    → lookup r.id (paired_at share group_id a b plan p).rides ≡ some (claimed share group_id r r)
paired_row share group_id a b r plan p ne (inl first) =
    subst
      (λ (x : PoolRide).
        lookup x.id (paired_at share group_id a b plan p).rides ≡ some (claimed share group_id x x))
      (sym first)
      (lookup-save a.id (claimed share group_id b b) (save (claimed share group_id a a) p.rides)
        ∙ ground (arith, ne, lookup-save_self (claimed share group_id a a) p.rides))
paired_row share group_id a b r plan p ne (inr second) =
    subst
      (λ (x : PoolRide).
        lookup x.id (paired_at share group_id a b plan p).rides ≡ some (claimed share group_id x x))
      (sym second)
      (lookup-save_self (claimed share group_id b b) (save (claimed share group_id a a) p.rides))

unwind_rides : (group_id : ℕ) (p : Pool) → (after (unwind group_id) p).rides ≡ p.rides
unwind_rides group_id p = ground arith

unpool_searching :
    (id group_id : ℕ) (p : Pool) {r : PoolRide}
    → lookup id p.rides ≡ some r
    → r.pool_group_id ≡ some group_id
    → is_searching r.status ≡ true
    → (after (unpool_ride id) p).rides ≡ save (solo r) p.rides
unfolding unpool_ride
unpool_searching id group_id p {r} e g s =
    ground (arith, unwind_rides group_id (after (store (solo r)) p))

-- When two different rides that wait are paired, at a discount of at most the whole fare, and one of
-- them is then unpooled, it searches a driver on its own at the fare and the discount it had before.
pub unpool_ride-pair_rides :
    (share group_id : ℕ) (a b r : PoolRide) (plan : Plan) (p : Pool)
    → share ≤ 10000
    → BothWait a b p
    → (r ≡ a) ⊎ (r ≡ b)
    → let p' = after (pair_rides share group_id a b plan) p in
      let alone = after (unpool_ride r.id) p' in
      (r' : PoolRide) × (lookup r.id alone.rides ≡ some r')
      × (is_searching r'.status ≡ true)
      × (r'.pool_group_id ≡ none)
      × (r'.total_fare ≡ r.total_fare)
      × (r'.discount ≡ r.discount)
unpool_ride-pair_rides share group_id a b r plan p h waits either =
    let (ea, eb, ma, mb, ne) = waits in
    let p' = paired_at share group_id a b plan p in
    let r1 : PoolRide = claimed share group_id r r in
    let run = ap (λ (x : Result Bool × Pool). x.1) (pair_waiting share group_id a b plan p waits) in
    let row = paired_row share group_id a b r plan p ne either in
    (
      solo r1,
      ap (λ (x : Pool). lookup r.id (after (unpool_ride r.id) x).rides) run
          ∙ ap (lookup r.id) (unpool_searching r.id group_id p' row refl refl)
          ∙ lookup-save_self (solo r1) p'.rides,
      refl,
      refl,
      ground (arith, discount_le share r.total_fare h),
      ground arith,
    )
