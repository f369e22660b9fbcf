-- ===== src/Deliveries/Progress.antt =====
-- A delivery only moves forward.
use ryda.Base.{
  ℕ, ◌==◌, ◌≡◌, refl, Bool, true, not, ◌&&◌, ◌||◌, none, some, ltb, arith, after, result, Result,
  ok, err, ◌>>=◌, ◌>>◌, lookup, save, lookup-save, lookup-key_of, Option-cases, Result-cases,
  Bool-cases, inl, inr, ◌⊎◌,
}
use ryda.Drivers.{reserve_for_trip}
use ryda.Drivers.Entities.{delivery}
use ryda.Deliveries.{find_by_id, emit}
use ryda.Deliveries.Acceptance.{check_courier, check_acceptance, claim_rows, claim, accept_delivery}
use ryda.Base.{ap, pure}
use ryda.Deliveries.Entities.{
  status_changed, Status, requested, searching, accepted, pickup_arrived, picked_up, in_transit,
  delivered, cancelled, failed, is_open, is_closed, Order, order_keyed, Deliveries,
}

-- How far a delivery has come.
abbrev pub rank : Status → ℕ
rank requested = 0
rank searching = 0
rank accepted = 1
rank pickup_arrived = 2
rank picked_up = 3
rank in_transit = 4
rank failed = 4
rank delivered = 5
rank cancelled = 6

-- From a status to one that is further on, or the same; a closed delivery keeps its status.
abbrev pub leads : Status → Status → Bool
leads s t = (rank s == rank t) || (not (is_closed s) && ltb (rank s) (rank t))

pub leads_refl : (s : Status) → leads s s ≡ true
leads_refl s = ground arith

leads_trans : (s t u : Status) → leads s t ≡ true → leads t u ≡ true → leads s u ≡ true
leads_trans s t u h k = ground arith

-- The delivery of an id was at a status, and has moved forward from it.
abbrev pub From : ℕ → Status → Deliveries → Type 0
From id s d = (o : Order) × (lookup id d.orders ≡ some o) × (leads s o.status ≡ true)

-- A row is saved in place of one from which it moves forward.
pub save-From :
    (id : ℕ) (s : Status) (o o' : Order) (d d' : Deliveries)
    → o'.id ≡ o.id
    → lookup o.id d.orders ≡ some o
    → leads o.status o'.status ≡ true
    → d'.orders ≡ save o' d.orders
    → From id s d
    → From id s d'
save-From id s o o' d d' same e l h (q, eq, lq) = elim (Bool-cases (id == o.id)) [
  | inl here ↦ (
    o',
    rw h (ground (arith, lookup-save id o' d.orders)),
    ground (arith, leads_trans s o.status o'.status),
  )
  | inr other ↦ (q, rw h (ground (arith, lookup-save id o' d.orders)), lq)
]

pub same-From :
    (id : ℕ) (s : Status) (d d' : Deliveries) → d'.orders ≡ d.orders → From id s d → From id s d'
same-From id s d d' e (q, eq, l) = (q, rw e eq, l)

-- A call that reads a delivery, and then saves it with a status that is further on, or nothing.
abbrev pub Moved : ℕ → Deliveries → Deliveries → Type 0
Moved i d d' =
    (d'.orders ≡ d.orders)
    ⊎ ((o : Order) × (o' : Order) × (lookup i d.orders ≡ some o)
        × (o'.id ≡ o.id)
        × (leads o.status o'.status ≡ true)
        × (d'.orders ≡ save o' d.orders))

pub Moved-From :
    (id i : ℕ) (s : Status) (d d' : Deliveries) → Moved i d d' → From id s d → From id s d'
Moved-From id i s d d' (inl same) h = same-From id s d d' same h
Moved-From id i s d d' (inr (o, o', e, k, l, w)) h =
    save-From id s o o' d d' k (lookup-key_of i {v = o} d.orders e) l w h

claim-Moved :
    (log_id i driver_id : ℕ) (d : Deliveries) → Moved i d (after (claim log_id i driver_id) d)
unfolding claim claim_rows
claim-Moved log_id i driver_id d = elim (Option-cases (lookup i d.orders)) [
  | inl missing ↦ inl (ground arith)
  | inr (o, e) ↦
      elim (Result-cases (result (reserve_for_trip log_id driver_id delivery) d.drivers)) [
        | inr (x, refused) ↦ inl (ground arith)
        | inl (p, reserved) ↦ elim (Bool-cases (is_open o.status)) [
          | inr taken ↦ inl (ground arith)
          | inl free ↦ inr (
            o,
            record o {
              driver_id = some driver_id;
              vehicle_id = p.active_vehicle_id;
              status = accepted;
              accepted_at = some d.payments.bank.now;
              pending_courier = none;
            },
            e,
            refl,
            ground arith,
            ground arith,
          )
        ]
      ]
]

pub check_acceptance_pure :
    (i driver_id : ℕ) (d : Deliveries) → after (check_acceptance i driver_id) d ≡ d
unfolding check_acceptance check_courier find_by_id
check_acceptance_pure i driver_id d = ground arith

finish_claim :
    (id : ℕ) (s : Status) (d : Deliveries) (claimed : Result Order × Deliveries)
    → From id s (claimed.1)
    → From id s (after ((λ _. claimed) >>= λ o. emit (status_changed o.id accepted) >> pure o) d)
finish_claim id s d (err _, d') h = h
finish_claim id s d (ok o, d') h = h

finish_accept :
    (id log_id i driver_id : ℕ) (s : Status) (d : Deliveries)
    (checked : Result (Unit {0}) × Deliveries)
    → From id s (checked.1)
    → From id s (
        after
          ((λ _. checked)
            >> (claim log_id i driver_id >>= λ o. emit (status_changed o.id accepted) >> pure o))
          d)
finish_accept id log_id i driver_id s d (err _, d') h = h
finish_accept id log_id i driver_id s d (ok _, d') h =
    finish_claim id s d' (claim log_id i driver_id d') (
      Moved-From id i s d' (after (claim log_id i driver_id) d') (claim-Moved log_id i driver_id d')
        h)

pub accept-From :
    (id log_id i driver_id : ℕ) (s : Status) (d : Deliveries)
    → From id s d
    → From id s (after (accept_delivery log_id i driver_id) d)
unfolding accept_delivery
accept-From id log_id i driver_id s d h =
    finish_accept id log_id i driver_id s d (check_acceptance i driver_id d) (
      same-From id s d (after (check_acceptance i driver_id) d)
        (ap (λ (x : Deliveries). x.orders) (check_acceptance_pure i driver_id d)) h)
