-- ===== src/Deliveries/Steps.antt =====
-- The single steps of a delivery move it forward.
use ryda.Base.{
  ℕ, ◌==◌, refl, Bool, not, ◌&&◌, some, List, arith, after, result, lookup, Option-cases,
  Result-cases, Bool-cases, inl, inr, is_some,
}
use ryda.Deliveries.{
  find_by_id, get_owned_by_driver, select_courier, reconcile_cod_shortfall, rate_driver,
  mark_pickup_arrived, mark_picked_up, mark_in_transit,
}
use ryda.Deliveries.Entities.{
  pickup_arrived, picked_up, in_transit, is_delivered, Order, order_keyed, Deliveries,
}
use ryda.Deliveries.Progress.{leads_refl, Moved}

pub arrive-Moved :
    (i driver_id : ℕ) (d : Deliveries) → Moved i d (after (mark_pickup_arrived i driver_id) d)
unfolding mark_pickup_arrived get_owned_by_driver find_by_id
arrive-Moved i driver_id d = elim (Option-cases (lookup i d.orders)) [
  | inl missing ↦ inl (ground arith)
  | inr (o, e) ↦ elim (Result-cases (result (mark_pickup_arrived i driver_id) d)) [
    | inr (x, refused) ↦ inl (ground arith)
    | inl (o', h) ↦
        inr (o, record o { status = pickup_arrived }, e, refl, ground arith, ground arith)
  ]
]

pub pick_up-Moved :
    (i driver_id : ℕ) (d : Deliveries) → Moved i d (after (mark_picked_up i driver_id) d)
unfolding mark_picked_up get_owned_by_driver find_by_id
pick_up-Moved i driver_id d = elim (Option-cases (lookup i d.orders)) [
  | inl missing ↦ inl (ground arith)
  | inr (o, e) ↦ elim (Result-cases (result (mark_picked_up i driver_id) d)) [
    | inr (x, refused) ↦ inl (ground arith)
    | inl (o', h) ↦ inr (
      o,
      record o { status = picked_up; picked_up_at = some d.payments.bank.now },
      e,
      refl,
      ground arith,
      ground arith,
    )
  ]
]

pub transit-Moved :
    (i driver_id : ℕ) (d : Deliveries) → Moved i d (after (mark_in_transit i driver_id) d)
unfolding mark_in_transit get_owned_by_driver find_by_id
transit-Moved i driver_id d = elim (Option-cases (lookup i d.orders)) [
  | inl missing ↦ inl (ground arith)
  | inr (o, e) ↦ elim (Result-cases (result (mark_in_transit i driver_id) d)) [
    | inr (x, refused) ↦ inl (ground arith)
    | inl (o', h) ↦ inr (o, record o { status = in_transit }, e, refl, ground arith, ground arith)
  ]
]

pub select-Moved :
    (found : List ℕ) (i customer_id driver_id : ℕ) (d : Deliveries)
    → Moved i d (after (select_courier found i customer_id driver_id) d)
unfolding select_courier find_by_id
select-Moved found i customer_id driver_id d = elim (Option-cases (lookup i d.orders)) [
  | inl missing ↦ inl (ground arith)
  | inr (o, e) ↦ elim (Result-cases (result (select_courier found i customer_id driver_id) d)) [
    | inr (x, refused) ↦ inl (ground arith)
    | inl (o', h) ↦ inr (
      o,
      record o { pending_courier = some driver_id },
      e,
      refl,
      leads_refl o.status,
      ground arith,
    )
  ]
]

pub reconcile-Moved : (i : ℕ) (d : Deliveries) → Moved i d (after (reconcile_cod_shortfall i) d)
unfolding reconcile_cod_shortfall find_by_id
reconcile-Moved i d = elim (Option-cases (lookup i d.orders)) [
  | inl missing ↦ inl (ground arith)
  | inr (o, e) ↦ elim (Result-cases (result (reconcile_cod_shortfall i) d)) [
    | inr (x, refused) ↦ inl (ground arith)
    | inl (o', h) ↦ inr (
      o,
      record o { cod_reconciled_at = some d.payments.bank.now },
      e,
      refl,
      leads_refl o.status,
      ground arith,
    )
  ]
]

abbrev can_rate : ℕ → Order → Bool
can_rate customer_id o =
    o.customer_id == customer_id && is_delivered o.status && not (is_some o.driver_rating)

pub rate-Moved :
    (i customer_id rating : ℕ) (d : Deliveries)
    → Moved i d (after (rate_driver i customer_id rating) d)
unfolding rate_driver find_by_id
rate-Moved i customer_id rating d = elim (Option-cases (lookup i d.orders)) [
  | inl missing ↦ inl (ground arith)
  | inr (o, e) ↦ elim (Option-cases o.driver_id) [
    | inl nobody ↦ inl (ground arith)
    | inr (driver_id, ed) ↦ elim (Bool-cases (can_rate customer_id o)) [
      | inr refused ↦ inl (ground arith)
      | inl free ↦
          inr (
            o,
            record o { driver_rating = some rating },
            e,
            refl,
            leads_refl o.status,
            ground arith,
          )
    ]
  ]
]
