-- ===== src/Deliveries/Handover.antt =====
-- markDelivered moves a delivery forward.
use ryda.Base.{
  ℕ, ◌≡◌, refl, true, Option, some, ℤ, pos, ◌-ℤ◌, arith, after, result, pure, Result, ok, err,
  ◌>>=◌, ◌>>◌, lookup, lookup-save_self, lookup-key_of, Option-cases, inl, inr,
}
use ryda.Drivers.{profile_of, restore_after_trip}
use ryda.Drivers.Levels.{record_trip_outcome}
use ryda.Drivers.Entities.{Profile}
use ryda.Drivers.Entities as D
use ryda.Users.{user_keyed}
use ryda.Deliveries.{find_by_id, get_owned_by_driver, store, emit}
use ryda.Deliveries.Payment.{Context, pay_by}
use ryda.Deliveries.Completion.{
  Proof, check_delivery, vehicle_category_of, commission_percent_of, commission_amount_of,
  delivered_at, note_shortfall, deliver_at, deliver_and_pay, mark_delivered,
}
use ryda.Deliveries.Entities.{
  Status, delivered, can_deliver, Order, order_keyed, status_changed, Deliveries, on_drivers,
}
use ryda.Deliveries.Progress.{leads, From, save-From, same-From}
use ryda.Deliveries.Paid.{pay_by-From}

note_orders :
    (id : ℕ) (proof : Proof) (o : Order) (p : Profile) (driver_id : ℕ) (d : Deliveries)
    → (after (note_shortfall id proof o p driver_id) d).orders ≡ d.orders
unfolding note_shortfall
note_orders id proof o p driver_id d = ground arith

delivered_row :
    (now percent : ℕ) (proof : Proof) (o : Order)
    → ((delivered_at now percent proof o).id ≡ o.id)
      × ((delivered_at now percent proof o).status ≡ delivered)
unfolding delivered_at
delivered_row now percent proof o = ground arith

-- The row is saved as delivered, and then paid.
finish_deliver :
    (id : ℕ) (s : Status) (context : Context) (o done : Order) (p : Profile) (driver_id : ℕ)
    (earnings : ℤ) (d : Deliveries) (noted : Result (Unit {0}) × Deliveries)
    → noted.1.orders ≡ d.orders
    → lookup o.id d.orders ≡ some o
    → done.id ≡ o.id
    → leads o.status done.status ≡ true
    → From id s d
    → From id s (
        after
          ((λ _. noted)
            >> (store done
                >> (emit (status_changed done.id delivered)
                    >> pay_by done.payment_method context done p driver_id earnings)))
          d)
finish_deliver id s context o done p driver_id earnings d (err _, d1) e l k m h =
    same-From id s d d1 e h
finish_deliver id s context o done p driver_id earnings d (ok _, d1) e l k m h =
    let d2 = after (store done >> emit (status_changed done.id delivered)) d1 in
    pay_by-From id s done.payment_method context done p driver_id earnings d2
      (lookup-save_self done d1.orders)
      (save-From id s o done d1 d2 k (rw e l) m refl (same-From id s d d1 e h))

deliver_at-From :
    (id percent : ℕ) (s : Status) (context : Context) (proof : Proof) (o : Order) (p : Profile)
    (driver_id : ℕ) (d : Deliveries)
    → lookup o.id d.orders ≡ some o
    → can_deliver o.status ≡ true
    → From id s d
    → From id s (after (deliver_at percent context proof o p driver_id) d)
unfolding deliver_at delivered_at
deliver_at-From id percent s context proof o p driver_id d l c h =
    finish_deliver id s context o (delivered_at d.payments.bank.now percent proof o) p driver_id
      (pos o.total_fare -ℤ pos (commission_amount_of percent o.total_fare)) d
      (note_shortfall context.shortfall_id proof o p driver_id d)
      (note_orders context.shortfall_id proof o p driver_id d) l
      (delivered_row d.payments.bank.now percent proof o).0
      (ground (arith, (delivered_row d.payments.bank.now percent proof o).1)) h

category_pure : (p : Profile) (d : Deliveries) → after (vehicle_category_of p) d ≡ d
unfolding vehicle_category_of
category_pure p d = elim (Option-cases p.active_vehicle_id) [
  | inl none_active ↦ ground arith
  | inr (v, e) ↦ ground arith
]

finish_pair :
    (id : ℕ) (s : Status) (p : Profile) (d : Deliveries) (paid : Result Order × Deliveries)
    → From id s (paid.1)
    → From id s (after ((λ _. paid) >>= λ o. pure {A = Order × Profile} (o, p)) d)
finish_pair id s p d (err _, d1) h = h
finish_pair id s p d (ok o, d1) h = h

finish_category :
    (id : ℕ) (s : Status) (context : Context) (proof : Proof) (o : Order) (p : Profile)
    (driver_id : ℕ) (d : Deliveries) (category : Result (Option ℕ) × Deliveries)
    → category.1 ≡ d
    → lookup o.id d.orders ≡ some o
    → can_deliver o.status ≡ true
    → From id s d
    → From id s (
        after
          ((λ _. category) >>= λ c.
            deliver_at (commission_percent_of context p c o) context proof o p driver_id >>= λ paid.
            pure {A = Order × Profile} (paid, p))
          d)
finish_category id s context proof o p driver_id d (err _, d1) e l c h = rw e h
finish_category id s context proof o p driver_id d (ok q, d1) e l c h =
    let percent = commission_percent_of context p q o in
    finish_pair id s p d1 (deliver_at percent context proof o p driver_id d1)
      (deliver_at-From id percent s context proof o p driver_id d1 (rw e l) c (rw e h))

deliver_and_pay-From :
    (id : ℕ) (s : Status) (context : Context) (proof : Proof) (o : Order) (driver_id : ℕ)
    (d : Deliveries)
    → lookup o.id d.orders ≡ some o
    → can_deliver o.status ≡ true
    → From id s d
    → From id s (after (deliver_and_pay context proof o driver_id) d)
unfolding deliver_and_pay
deliver_and_pay-From id s context proof o driver_id d l c h =
    elim (Option-cases (profile_of driver_id d.drivers.profiles)) [
      | inl missing ↦ ground arith
      | inr (p, e) ↦ ground (
        arith,
        finish_category id s context proof o p driver_id d (vehicle_category_of p d)
            (category_pure p d) l c h,
      )
    ]

trip_orders :
    (log_id driver_id : ℕ) (o : Order) (p : Profile) (d : Deliveries)
    → (after
        (on_drivers (record_trip_outcome p.id D.completed)
          >> (on_drivers (restore_after_trip log_id driver_id) >> pure o))
        d).orders
      ≡ d.orders
trip_orders log_id driver_id o p d = ground arith

-- The driver's record and return after a delivery
finish_trip :
    (id log_id driver_id : ℕ) (s : Status) (d : Deliveries)
    (done : Result (Order × Profile) × Deliveries)
    → From id s (done.1)
    → From id s (
        after
          ((λ _. done) >>= λ (x : Order × Profile).
            on_drivers (record_trip_outcome x.1.id D.completed)
            >> (on_drivers (restore_after_trip log_id driver_id) >> pure (x.0)))
          d)
finish_trip id log_id driver_id s d (err _, d1) h = h
finish_trip id log_id driver_id s d (ok (o, p), d1) h =
    same-From id s d1
      (after
        (on_drivers (record_trip_outcome p.id D.completed)
          >> (on_drivers (restore_after_trip log_id driver_id) >> pure o))
        d1)
      (trip_orders log_id driver_id o p d1) h

check_delivery-Found :
    (i driver_id : ℕ) (proof : Proof) (d : Deliveries) {o : Order}
    → result (check_delivery i driver_id proof) d ≡ ok o
    → (lookup i d.orders ≡ some o) × (can_deliver o.status ≡ true)
unfolding check_delivery get_owned_by_driver find_by_id
check_delivery-Found i driver_id proof d {o} h = ground arith

check_delivery_pure :
    (i driver_id : ℕ) (proof : Proof) (d : Deliveries)
    → after (check_delivery i driver_id proof) d ≡ d
unfolding check_delivery get_owned_by_driver find_by_id
check_delivery_pure i driver_id proof d = ground arith

finish_checked :
    (id driver_id : ℕ) (s : Status) (context : Context) (proof : Proof) (d : Deliveries)
    (checked : Result Order × Deliveries)
    → checked.1 ≡ d
    → ((o : Order)
        → checked.0 ≡ ok o
        → (lookup o.id d.orders ≡ some o) × (can_deliver o.status ≡ true))
    → From id s d
    → From id s (
        after
          ((λ _. checked) >>= λ o.
            deliver_and_pay context proof o driver_id >>= λ (x : Order × Profile).
            on_drivers (record_trip_outcome x.1.id D.completed)
            >> (on_drivers (restore_after_trip context.log_id driver_id) >> pure (x.0)))
          d)
finish_checked id driver_id s context proof d (err _, d1) e f h = rw e h
finish_checked id driver_id s context proof d (ok o, d1) e f h =
    let (l, c) = f o refl in
    finish_trip id context.log_id driver_id s d1 (deliver_and_pay context proof o driver_id d1)
      (deliver_and_pay-From id s context proof o driver_id d1 (rw e l) c (rw e h))

pub deliver-From :
    (id i driver_id : ℕ) (s : Status) (context : Context) (proof : Proof) (d : Deliveries)
    → From id s d
    → From id s (after (mark_delivered context proof i driver_id) d)
unfolding mark_delivered
deliver-From id i driver_id s context proof d h =
    finish_checked id driver_id s context proof d (check_delivery i driver_id proof d)
      (check_delivery_pure i driver_id proof d)
      (λ o e.
        let (l, c) = check_delivery-Found i driver_id proof d {o = o} e in
        (lookup-key_of i {v = o} d.orders l, c))
      h
