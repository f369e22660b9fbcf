-- ===== src/Deliveries/Claims.antt =====
-- A delivery goes to the first driver who accepts it.
use ryda.Base.{
  ℕ, ◌≡◌, none, some, arith, after, result, ok, err, lookup, lookup-save_self, key-lookup,
  Option-cases, inl, inr, Result-cases, ◌⊎◌, delivery_taken, driver_unavailable,
}
use ryda.Drivers.{reserve_for_trip}
use ryda.Drivers.Entities.{delivery}
use ryda.Deliveries.Acceptance.{claim_rows, claim}
use ryda.Deliveries.Entities.{Order, order_keyed, accepted, Deliveries}

-- What a claim that went through did.
claim-ok :
    (log_id id driver_id : ℕ) (d : Deliveries) {o : Order}
    → result (claim log_id id driver_id) d ≡ ok o
    → (o.status ≡ accepted)
      × (o.driver_id ≡ some driver_id)
      × (lookup id (after (claim log_id id driver_id) d).orders ≡ some o)
unfolding claim claim_rows
claim-ok log_id id driver_id d {o} h = elim (Option-cases (lookup id d.orders)) [
  | inl missing ↦ absurd (ground arith)
  | inr (old, e) ↦
      elim (Result-cases (result (reserve_for_trip log_id driver_id delivery) d.drivers)) [
        | inr (x, ex) ↦ absurd (ground arith)
        | inl (p, ep) ↦
            let saved : Order = record old {
              driver_id = some driver_id;
              vehicle_id = p.active_vehicle_id;
              status = accepted;
              accepted_at = some d.payments.bank.now;
              pending_courier = none;
            } in
            (
              ground arith,
              ground arith,
              ground (arith, lookup-save_self saved d.orders, key-lookup id d.orders e),
            )
      ]
]

refused_when_taken :
    (log_id id driver_id : ℕ) (d : Deliveries) {o : Order}
    → lookup id d.orders ≡ some o
    → o.status ≡ accepted
    → let second = result (claim log_id id driver_id) d in
      (second ≡ err delivery_taken) ⊎ (second ≡ err driver_unavailable)
unfolding claim claim_rows reserve_for_trip
refused_when_taken log_id id driver_id d {o} e s = ground arith

-- Once a driver's claim of a delivery went through, the row holds that driver as its courier, and
-- every other claim of the delivery is refused, because it is taken or that driver is not free.
pub claim_delivery_once :
    (log_id log_id' id driver_id driver_id' : ℕ) (d : Deliveries) {o : Order}
    → result (claim log_id id driver_id) d ≡ ok o
    → let d' = after (claim log_id id driver_id) d in
      let second = result (claim log_id' id driver_id') d' in
      (lookup id d'.orders ≡ some o)
      × (o.driver_id ≡ some driver_id)
      × ((second ≡ err delivery_taken) ⊎ (second ≡ err driver_unavailable))
claim_delivery_once log_id log_id' id driver_id driver_id' d {o} h =
    let (accepted_now, by, kept) = claim-ok log_id id driver_id d {o = o} h in
    (
      kept,
      by,
      refused_when_taken log_id' id driver_id' (after (claim log_id id driver_id) d) kept
          accepted_now,
    )
