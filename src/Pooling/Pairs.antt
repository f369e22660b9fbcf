-- ===== src/Pooling/Pairs.antt =====
-- Pairing claims each ride once.
use ryda.Base.{
  catch, transaction, pure, bind-err, leb, if◌then◌else◌, ◌>>◌, ℕ, ◌==◌, ◌≡◌, refl, Bool, true,
  false, ◌||◌, some, arith, after, result, Result, ok, err, lookup, lookup-save, key-lookup, none,
  not, Option-cases, Bool-cases, inl, inr, pool_claim_race, ap,
}
use ryda.Pooling.{
  claim_one, claim_both, pair_rides, claimed, store_group, new_group, start_for_ride,
}
use ryda.Pooling.Entities.{PoolRide, pool_ride_keyed, is_matching, Pool}
use ryda.Pooling.Routes.{Plan}

-- The ride of an id does not wait for a partner.
abbrev pub is_settled : ℕ → Pool → Bool
is_settled id p = elim (lookup id p.rides) [ none ↦ true | some r ↦ not (is_matching r.status) ]

claim_one-settled :
    (share group_id : ℕ) (r : PoolRide) (p : Pool)
    → is_settled r.id p ≡ true
    → claim_one share group_id r p ≡ (err pool_claim_race, p)
unfolding claim_one
claim_one-settled share group_id r p h = ground arith

-- A claim settles its ride, and unsettles none.
claim_one-settles :
    (share group_id id : ℕ) (r : PoolRide) (p : Pool)
    → (id == r.id || is_settled id p) ≡ true
    → result (claim_one share group_id r) p ≡ ok tt
    → is_settled id (after (claim_one share group_id r) p) ≡ true
unfolding claim_one
claim_one-settles share group_id id r p h e = elim (Option-cases (lookup r.id p.rides)) [
  | inl missing ↦ absurd (ground arith)
  | inr (current, found) ↦ ground (
    arith,
    lookup-save id (claimed share group_id r current) p.rides,
    key-lookup r.id {v = current} p.rides found,
  )
]

finish_refused :
    (share group_id start : ℕ) (b : PoolRide) (p : Pool) (first : Result (Unit {0}) × Pool)
    → (first.0 ≡ ok tt → is_settled b.id (first.1) ≡ true)
    → catch
        (transaction
          ((λ _. first) >> (claim_one share group_id b >> (start_for_ride start >> pure true))))
        (λ _. pure false)
        p
      ≡ (ok false, p)
finish_refused share group_id start b p (err e, p1) h = refl
finish_refused share group_id start b p (ok _, p1) h =
    ap (λ (x : Result Bool × Pool). catch (transaction (λ _. x)) (λ _. pure false) p)
      (bind-err (claim_one share group_id b) (λ _. start_for_ride start >> pure true) p1 p1
        (claim_one-settled share group_id b p1 (h refl)))

-- A pair of which one ride no longer waits is refused, and nothing is written.
pair_refused :
    (share group_id : ℕ) (a b : PoolRide) (plan : Plan) (p : Pool)
    → (is_settled a.id p || is_settled b.id p) ≡ true
    → pair_rides share group_id a b plan p ≡ (ok false, p)
unfolding pair_rides claim_both
pair_refused share group_id a b plan p h =
    let p1 : Pool = after (store_group (new_group group_id a b plan p.now)) p in
    finish_refused share group_id (if leb a.created_at b.created_at then a.id else b.id) b p
      (claim_one share group_id a p1)
      (λ e. elim (Bool-cases (is_settled a.id p)) [
        | inl taken ↦ absurd (ground (arith, claim_one-settled share group_id a p1))
        | inr free ↦ claim_one-settles share group_id b.id a p1 (ground arith) e
      ])

finish_second :
    (start id : ℕ) (p : Pool) (second : Result (Unit {0}) × Pool)
    → (second.0 ≡ ok tt → is_settled id (second.1) ≡ true)
    → let m =
        catch
          (transaction ((λ _. second) >> (start_for_ride start >> pure true)))
          (λ _. pure false) in
      result m p ≡ ok true → is_settled id (after m p) ≡ true
finish_second start id p (err e, p2) h r = absurd (ground arith)
finish_second start id p (ok _, p2) h r = h refl

finish_first :
    (share group_id start id : ℕ) (b : PoolRide) (p : Pool) (first : Result (Unit {0}) × Pool)
    → (first.0 ≡ ok tt → (id == b.id || is_settled id (first.1)) ≡ true)
    → let m =
        catch
          (transaction
            ((λ _. first) >> (claim_one share group_id b >> (start_for_ride start >> pure true))))
          (λ _. pure false) in
      result m p ≡ ok true → is_settled id (after m p) ≡ true
finish_first share group_id start id b p (err e, p1) h r = absurd (ground arith)
finish_first share group_id start id b p (ok _, p1) h r =
    finish_second start id p (claim_one share group_id b p1)
      (claim_one-settles share group_id id b p1 (h refl)) r

-- A pair that went through settles both of its rides.
pair_settles :
    (share group_id id : ℕ) (a b : PoolRide) (plan : Plan) (p : Pool)
    → (id == a.id || id == b.id) ≡ true
    → result (pair_rides share group_id a b plan) p ≡ ok true
    → is_settled id (after (pair_rides share group_id a b plan) p) ≡ true
unfolding pair_rides claim_both
pair_settles share group_id id a b plan p h r =
    let p1 : Pool = after (store_group (new_group group_id a b plan p.now)) p in
    finish_first share group_id (if leb a.created_at b.created_at then a.id else b.id) id b p
      (claim_one share group_id a p1)
      (λ e. elim (Bool-cases (id == b.id)) [
        | inl last ↦ ground (arith, last)
        | inr other ↦
            ground (arith, claim_one-settles share group_id id a p1 (ground (arith, h, other)) e)
      ])
      r

-- However two attempts to pair a ride interleave, it gets one partner: once a pair went through, every
-- other pair with one of its two rides is refused, and writes nothing.
pub pair_once :
    (share group_id group_id' : ℕ) (a b x y : PoolRide) (plan plan' : Plan) (p : Pool)
    → result (pair_rides share group_id a b plan) p ≡ ok true
    → ((x.id == a.id || x.id == b.id) || (y.id == a.id || y.id == b.id)) ≡ true
    → let p' = after (pair_rides share group_id a b plan) p in
      pair_rides share group_id' x y plan' p' ≡ (ok false, p')
pair_once share group_id group_id' a b x y plan plan' p r shared =
    let p' = after (pair_rides share group_id a b plan) p in
    pair_refused share group_id' x y plan' p' (elim (Bool-cases (x.id == a.id || x.id == b.id)) [
      | inl first ↦ ground (arith, pair_settles share group_id x.id a b plan p first r)
      | inr other ↦
          ground
            (arith, pair_settles share group_id y.id a b plan p (ground (arith, shared, other)) r)
    ])
