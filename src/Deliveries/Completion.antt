-- ===== src/Deliveries/Completion.antt =====
-- src/logistics/logistics.service.ts: markDelivered.
use ryda.Base.{
  ℕ, ◌+◌, ◌-◌, ◌*◌, ◌/◌, ltb, leb, Bool, not, ◌&&◌, Option, none, some, pos, ◌-ℤ◌, if◌then◌else◌,
  is_some, Action, ◌>>=◌, ◌>>◌, pure, throw, gets, throw_if, lookup, not_picked_up, photo_required,
  signature_required, cod_amount_required, vehicle_not_found,
}
use ryda.Commission.{resolve_commission_percent}
use ryda.Commission
use ryda.Debts.{record_debt, from_delivery}
use ryda.Drivers.{find_by_user_id, restore_after_trip}
use ryda.Drivers.Levels.{record_trip_outcome}
use ryda.Drivers.Entities.{Profile, Vehicle, vehicle_keyed, category_number}
use ryda.Drivers.Entities as D
use ryda.Deliveries.{clock, store, emit, get_owned_by_driver}
use ryda.Deliveries.Payment.{Context, or_zero, pay_by}
use ryda.Deliveries.Entities.{
  delivered, can_deliver, CodStatus, collected, partial, nothing_collected, Order, status_changed,
  Deliveries, on_drivers, on_debts,
}

-- What the driver hands in: whether there is a photo and a signature, and the cash collected.
pub record Proof : Type 0 where
  pub has_photo : Bool
  pub has_signature : Bool
  pub cod_collected : Option ℕ

-- The guards of markDelivered
unfoldable pub check_delivery : ℕ → ℕ → Proof → Action Deliveries Order
check_delivery id driver_id proof = do
  order ← get_owned_by_driver id driver_id
  throw_if (not (can_deliver order.status)) not_picked_up
  throw_if (not proof.has_photo) photo_required
  throw_if (order.requires_signature && not proof.has_signature) signature_required
  throw_if (order.is_cod && not (is_some proof.cod_collected)) cod_amount_required
  pure order

-- The category of the driver's vehicle, if they have one
unfoldable pub vehicle_category_of : Profile → Action Deliveries (Option ℕ)
vehicle_category_of profile d = elim profile.active_vehicle_id [
  | none ↦ pure none d
  | some id ↦ elim (lookup id d.drivers.vehicles) [
    | none ↦ throw vehicle_not_found d
    | some vehicle ↦ pure (some (category_number vehicle.category)) d
  ]
]

-- commissionPercent
unfoldable pub commission_percent_of : Context → Profile → Option ℕ → Order → ℕ
commission_percent_of context profile vehicle_category order =
    elim profile.commission_override_percent [
      | some percent ↦ percent
      | none ↦ resolve_commission_percent context.settings context.rules record {
        driver_level = profile.level;
        vehicle_category = vehicle_category;
        city = order.city;
        trip_type = Commission.delivery;
      }
    ]

-- `this.round(totalFare * (commissionPercent / 100))`, in kobo
unfoldable pub commission_amount_of : ℕ → ℕ → ℕ
commission_amount_of percent fare = (2 * (fare * percent) + 10000) / 20000

-- codCollectionStatus
unfoldable pub cod_status_of : ℕ → ℕ → CodStatus
cod_status_of expected got =
    if leb expected got then collected else if ltb 0 got then partial else nothing_collected

-- The row with what was collected, for cash on delivery
abbrev pub with_cod : Proof → Order → Order
with_cod proof order =
    let got = or_zero proof.cod_collected in
    if order.is_cod
    then record order {
      cod_collected = some got;
      cod_status = some (cod_status_of (or_zero order.cod_amount) got);
    }
    else order

-- The row as it is delivered at a commission
unfoldable pub delivered_at : ℕ → ℕ → Proof → Order → Order
delivered_at now percent proof order =
    let amount = commission_amount_of percent order.total_fare in
    record (with_cod proof order) {
      status = delivered;
      delivered_at = some now;
      commission_percent = some percent;
      commission_amount = some amount;
      driver_earnings = some (pos order.total_fare -ℤ pos amount);
    }

-- A shortfall of the cash collected is the driver's own debt.
unfoldable pub note_shortfall : ℕ → Proof → Order → Profile → ℕ → Action Deliveries (Unit {0})
note_shortfall id proof order profile driver_id =
    let expected = or_zero order.cod_amount in
    let got = or_zero proof.cod_collected in
    if order.is_cod && ltb got expected
    then on_debts (
        record_debt id (some driver_id) profile.fleet_company_id order.id (pos (expected - got))
          from_delivery)
      >> pure tt
    else pure tt

-- The delivered row is stored, then the payment is made.
unfoldable pub deliver_at : ℕ → Context → Proof → Order → Profile → ℕ → Action Deliveries Order
deliver_at percent context proof order profile driver_id = do
  now ← gets clock
  note_shortfall context.shortfall_id proof order profile driver_id
  let done = delivered_at now percent proof order
  store done
  emit (status_changed done.id delivered)
  let earnings = pos order.total_fare -ℤ pos (commission_amount_of percent order.total_fare)
  pay_by done.payment_method context done profile driver_id earnings

-- markDelivered after its guards, to the payment
unfoldable pub deliver_and_pay : Context → Proof → Order → ℕ → Action Deliveries (Order × Profile)
deliver_and_pay context proof order driver_id = do
  profile ← on_drivers (find_by_user_id driver_id)
  category ← vehicle_category_of profile
  paid ←
      deliver_at (commission_percent_of context profile category order) context proof order profile
        driver_id
  pure (paid, profile)

-- markDelivered
unfoldable pub mark_delivered : Context → Proof → ℕ → ℕ → Action Deliveries Order
mark_delivered context proof id driver_id = do
  order ← check_delivery id driver_id proof
  done ← deliver_and_pay context proof order driver_id
  on_drivers (record_trip_outcome done.1.id D.completed)
  on_drivers (restore_after_trip context.log_id driver_id)
  pure done.0
