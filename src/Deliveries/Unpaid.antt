-- ===== src/Deliveries/Unpaid.antt =====
-- A delivery whose payment throws: markDelivered saves it as delivered first, and nothing undoes that.
use ryda.Base.{
  ap, subst, sym, bind-ok, bind-err, ◌∙◌, ℕ, ◌≡◌, refl, true, false, Option, some, ℤ, pos, ◌-ℤ◌,
  ltb_ℤ, leb_ℤ, arith, after, result, Result, ok, err, ◌>>◌, not, ◌&&◌, lookup, save,
  lookup-save_self, key-lookup, insufficient_balance, not_picked_up,
}
use ryda.Trips.{PaymentMethod, by_wallet}
use ryda.Wallets.{wallet_of, get_by_user_id, debit}
use ryda.Wallets.Entities.{Wallet, wallet_keyed}
use ryda.Drivers.{profile_of}
use ryda.Drivers.Entities.{Profile}
use ryda.Deliveries.{find_by_id, get_owned_by_driver, store, emit}
use ryda.Deliveries.Payment.{Context, credit_driver_earnings, charge_wallet, pay_by}
use ryda.Deliveries.Completion.{
  Proof, check_delivery, vehicle_category_of, commission_percent_of, commission_amount_of,
  delivered_at, note_shortfall, deliver_at, deliver_and_pay, mark_delivered,
}
use ryda.Deliveries.Entities.{
  delivered, can_deliver, Order, order_keyed, status_changed, Deliveries,
}

-- The customer's wallet does not cover the fare.
abbrev pub Short : Order → Deliveries → Type 0
Short o d =
    (w : Wallet) × (wallet_of o.customer_id d.payments.bank.wallets ≡ some w)
    × (lookup w.id d.payments.bank.wallets ≡ some w)
    × (w.is_frozen ≡ false)
    × (leb_ℤ (pos o.total_fare) (pos 0) ≡ false)
    × (ltb_ℤ w.balance (pos o.total_fare) ≡ true)

charge_wallet-refused :
    (o : Order) (d : Deliveries) → Short o d → charge_wallet o d ≡ (err insufficient_balance, d)
unfolding charge_wallet get_by_user_id debit
charge_wallet-refused o d (w, e, l, f, g, h) = ground arith

-- A delivery that is paid by wallet, without cash on delivery, and that its driver carries, with the
-- proof that it needs: a photo, and a signature where one is required.
abbrev pub Carried : ℕ → ℕ → Proof → Order → Profile → Option ℕ → Deliveries → Type 0
Carried id driver_id proof o p category d =
    (lookup id d.orders ≡ some o)
    × (o.driver_id ≡ some driver_id)
    × (can_deliver o.status ≡ true)
    × (proof.has_photo ≡ true)
    × ((o.requires_signature && not proof.has_signature) ≡ false)
    × (o.is_cod ≡ false)
    × (o.payment_method ≡ by_wallet)
    × (profile_of driver_id d.drivers.profiles ≡ some p)
    × (vehicle_category_of p d ≡ (ok category, d))

-- What the call leaves: the row as delivered, and its event.
abbrev left_at : Context → Proof → Order → Profile → Option ℕ → Deliveries → Deliveries
left_at context proof o p category d =
    let done =
      delivered_at d.payments.bank.now (commission_percent_of context p category o) proof o in
    after (store done >> emit (status_changed done.id delivered)) d

-- Without cash on delivery, only the status, its time and the commission change.
done_plain :
    (now percent : ℕ) (proof : Proof) (o : Order)
    → o.is_cod ≡ false
    → let done = delivered_at now percent proof o in
      (done.id ≡ o.id)
      × (done.customer_id ≡ o.customer_id)
      × (done.total_fare ≡ o.total_fare)
      × (done.payment_method ≡ o.payment_method)
      × (done.status ≡ delivered)
unfolding delivered_at
done_plain now percent proof o cod = ground arith

note_plain :
    (id : ℕ) (proof : Proof) (o : Order) (p : Profile) (driver_id : ℕ) (d : Deliveries)
    → o.is_cod ≡ false
    → note_shortfall id proof o p driver_id d ≡ (ok tt, d)
unfolding note_shortfall
note_plain id proof o p driver_id d cod = rw cod refl

charge_done :
    (context : Context) (now percent : ℕ) (proof : Proof) (o : Order) (d : Deliveries)
    → o.is_cod ≡ false
    → Short o d
    → charge_wallet (delivered_at now percent proof o) d ≡ (err insufficient_balance, d)
charge_done context now percent proof o d cod (w, e, l, f, g, h) =
    let (i, c, t, m, s) = done_plain now percent proof o cod in
    charge_wallet-refused (delivered_at now percent proof o) d (w, rw c e, l, f, rw t g, rw t h)

pay_refused :
    (m : PaymentMethod) (context : Context) (o : Order) (p : Profile) (driver_id : ℕ) (earnings : ℤ)
    (d : Deliveries)
    → m ≡ by_wallet
    → charge_wallet o d ≡ (err insufficient_balance, d)
    → pay_by m context o p driver_id earnings d ≡ (err insufficient_balance, d)
unfolding pay_by
pay_refused m context o p driver_id earnings d wallet e =
    ap (λ by. pay_by by context o p driver_id earnings d) wallet
    ∙ bind-err (charge_wallet o) (λ _. credit_driver_earnings context.limits o p earnings) d d e

deliver_at-refused :
    (context : Context) (id driver_id : ℕ) (proof : Proof) (o : Order) (p : Profile)
    (category : Option ℕ) (d : Deliveries)
    → Carried id driver_id proof o p category d
    → Short o d
    → deliver_at (commission_percent_of context p category o) context proof o p driver_id d
      ≡ (err insufficient_balance, left_at context proof o p category d)
unfolding deliver_at
deliver_at-refused context id driver_id proof o p category d
      (e, by, c, photo, sign, cod, wallet, ep, ec) h =
    let percent = commission_percent_of context p category o in
    let now = d.payments.bank.now in
    let done = delivered_at now percent proof o in
    let left = left_at context proof o p category d in
    let earnings = pos o.total_fare -ℤ pos (commission_amount_of percent o.total_fare) in
    let (i, k, t, m, s) = done_plain now percent proof o cod in
    bind-ok (note_shortfall context.shortfall_id proof o p driver_id)
      (λ _.
        store done
        >> (emit (status_changed done.id delivered)
            >> pay_by done.payment_method context done p driver_id earnings))
      d d (note_plain context.shortfall_id proof o p driver_id d cod)
    ∙ pay_refused done.payment_method context done p driver_id earnings left (m ∙ wallet)
        (charge_done context now percent proof o left cod h)

mark_delivered-refused :
    (context : Context) (id driver_id : ℕ) (proof : Proof) (o : Order) (p : Profile)
    (category : Option ℕ) (d : Deliveries)
    → Carried id driver_id proof o p category d
    → Short o d
    → mark_delivered context proof id driver_id d
      ≡ (err insufficient_balance, left_at context proof o p category d)
unfolding mark_delivered deliver_and_pay check_delivery get_owned_by_driver find_by_id
mark_delivered-refused context id driver_id proof o p category d carried h =
    let (e, by, c, photo, sign, cod, wallet, ep, ec) = carried in
    ground (arith, deliver_at-refused context id driver_id proof o p category d carried h)

retry_refused :
    (context : Context) (id driver_id : ℕ) (proof : Proof) (d : Deliveries) {o : Order}
    → lookup id d.orders ≡ some o
    → o.driver_id ≡ some driver_id
    → o.status ≡ delivered
    → mark_delivered context proof id driver_id d ≡ (err not_picked_up, d)
unfolding mark_delivered check_delivery get_owned_by_driver find_by_id
retry_refused context id driver_id proof d {o} e by s = ground arith

done_driver :
    (now percent : ℕ) (proof : Proof) (o : Order)
    → (delivered_at now percent proof o).driver_id ≡ o.driver_id
unfolding delivered_at
done_driver now percent proof o = ground arith

left-lookup :
    (context : Context) (id : ℕ) (proof : Proof) (o : Order) (p : Profile) (category : Option ℕ)
    (d : Deliveries)
    → lookup id d.orders ≡ some o
    → o.is_cod ≡ false
    → lookup id (left_at context proof o p category d).orders
      ≡ some (delivered_at d.payments.bank.now (commission_percent_of context p category o) proof o)
left-lookup context id proof o p category d e cod =
    let percent = commission_percent_of context p category o in
    let done = delivered_at d.payments.bank.now percent proof o in
    let (i, c, t, m, s) = done_plain d.payments.bank.now percent proof o cod in
    subst (λ n. lookup n (save done d.orders) ≡ some done) (i ∙ key-lookup id d.orders e)
      (lookup-save_self done d.orders)

-- When the wallet of the customer, which is not frozen, does not cover the fare of a delivery that is
-- paid by wallet, without cash on delivery, and that its driver hands over with a photo, and with a
-- signature where one is required, markDelivered throws, and yet the delivery is left as delivered: no
-- wallet and no driver's row has changed, so the driver is still on the trip, and the driver's every
-- further attempt is refused, as the delivery is not in transit.
pub delivered_unpaid :
    (context : Context) (context' : Context) (id driver_id : ℕ) (proof proof' : Proof) (o : Order)
    (p : Profile) (category : Option ℕ) (d : Deliveries)
    → Carried id driver_id proof o p category d
    → Short o d
    → let d' = after (mark_delivered context proof id driver_id) d in
      (o' : Order) × (result (mark_delivered context proof id driver_id) d
        ≡ err insufficient_balance)
      × (lookup id d'.orders ≡ some o')
      × (o'.status ≡ delivered)
      × (d'.payments ≡ d.payments)
      × (d'.drivers ≡ d.drivers)
      × (mark_delivered context' proof' id driver_id d' ≡ (err not_picked_up, d'))
delivered_unpaid context context' id driver_id proof proof' o p category d carried h =
    let (e, by, c, photo, sign, cod, wallet, ep, ec) = carried in
    let now = d.payments.bank.now in
    let percent = commission_percent_of context p category o in
    let done = delivered_at now percent proof o in
    let left = left_at context proof o p category d in
    let run = mark_delivered-refused context id driver_id proof o p category d carried h in
    let (i, k, t, m, s) = done_plain now percent proof o cod in
    let there = left-lookup context id proof o p category d e cod in
    let at : after (mark_delivered context proof id driver_id) d ≡ left =
      ap (λ (x : Result Order × Deliveries). x.1) run in
    (
      done,
      ap (λ (x : Result Order × Deliveries). x.0) run,
      ap (λ (x : Deliveries). lookup id x.orders) at ∙ there,
      s,
      ap (λ (x : Deliveries). x.payments) at,
      ap (λ (x : Deliveries). x.drivers) at,
      subst (λ x. mark_delivered context' proof' id driver_id x ≡ (err not_picked_up, x)) (sym at)
          (retry_refused context' id driver_id proof' left there
            (done_driver now percent proof o ∙ by) s),
    )
