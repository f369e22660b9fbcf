-- ===== src/Deliveries/Entities.antt =====
-- src/logistics/entities/delivery-order.entity.ts, src/common/vehicle-capacity-match.util.ts, and the state that the
-- methods of src/logistics/logistics.service.ts work on, with the calls of other services lifted to it.
use ryda.Base.{ℕ, ℤ, Bool, true, false, Option, List, Keyed, Action, leb}
use ryda.Trips.{PaymentMethod}
use ryda.Users.{User}
use ryda.Drivers.Entities.{
  Drivers, VehicleCategory, suv, taxi, luxury, ev, motorcycle, tricycle, bus, wheelchair_accessible,
}
use ryda.Wallets.Entities.{Bank}
use ryda.Fleet.Entities.{Fleets}
use ryda.Corporate.Entities.{Corporate}
use ryda.Debts.{Debt, Debts}
use ryda.Payments.Entities.{Payments}

-- DeliveryVehicleType
pub data VehicleType : Type 0 where
  bike keke car van pickup truck : VehicleType

-- DELIVERY_VEHICLE_RANK
abbrev pub type_rank : VehicleType → ℕ
type_rank bike = 1
type_rank keke = 2
type_rank car = 3
type_rank van = 4
type_rank pickup = 5
type_rank truck = 6

-- VEHICLE_CATEGORY_RANK
abbrev pub category_rank : VehicleCategory → ℕ
category_rank motorcycle = 1
category_rank tricycle = 2
category_rank VehicleCategory.car = 3
category_rank taxi = 3
category_rank ev = 3
category_rank suv = 4
category_rank luxury = 3
category_rank VehicleCategory.van = 4
category_rank bus = 4
category_rank VehicleCategory.truck = 6
category_rank wheelchair_accessible = 3

-- canVehicleCoverDelivery
unfoldable pub can_vehicle_cover_delivery : VehicleCategory → VehicleType → Bool
can_vehicle_cover_delivery category requested = leb (type_rank requested) (category_rank category)

-- DeliveryStatus
pub data Status : Type 0 where
  requested searching accepted pickup_arrived picked_up in_transit delivered cancelled failed :
      Status

-- The statuses by number, to compare them.
abbrev pub status_number : Status → ℕ
status_number requested = 0
status_number searching = 1
status_number accepted = 2
status_number pickup_arrived = 3
status_number picked_up = 4
status_number in_transit = 5
status_number delivered = 6
status_number cancelled = 7
status_number failed = 8

-- SEARCHING or REQUESTED
abbrev pub is_open : Status → Bool
is_open searching = true
is_open requested = true
is_open _ = false

abbrev pub is_accepted : Status → Bool
is_accepted accepted = true
is_accepted _ = false

-- PICKUP_ARRIVED or ACCEPTED
abbrev pub can_pick_up : Status → Bool
can_pick_up pickup_arrived = true
can_pick_up accepted = true
can_pick_up _ = false

abbrev pub is_picked_up : Status → Bool
is_picked_up picked_up = true
is_picked_up _ = false

-- IN_TRANSIT or PICKED_UP
abbrev pub can_deliver : Status → Bool
can_deliver in_transit = true
can_deliver picked_up = true
can_deliver _ = false

abbrev pub is_delivered : Status → Bool
is_delivered delivered = true
is_delivered _ = false

-- DELIVERED or CANCELLED
abbrev pub is_closed : Status → Bool
is_closed delivered = true
is_closed cancelled = true
is_closed _ = false

-- CodCollectionStatus
pub data CodStatus : Type 0 where
  collected partial nothing_collected : CodStatus

abbrev pub is_collected : CodStatus → Bool
is_collected collected = true
is_collected _ = false

-- DeliveryCancelledBy
pub data CancelledBy : Type 0 where
  by_customer by_driver by_system : CancelledBy

abbrev pub is_customer : CancelledBy → Bool
is_customer by_customer = true
is_customer _ = false

abbrev pub is_driver : CancelledBy → Bool
is_driver by_driver = true
is_driver _ = false

-- The columns of a delivery that the methods here read or write; amounts are whole kobo.
pub record Order : Type 0 where
  pub id : ℕ
  pub customer_id : ℕ
  pub driver_id : Option ℕ
  pub pending_courier : Option ℕ
  pub vehicle_id : Option ℕ
  pub vehicle_type : VehicleType
  pub status : Status
  pub requires_signature : Bool
  pub is_cod : Bool
  pub cod_amount : Option ℕ
  pub cod_collected : Option ℕ
  pub cod_status : Option CodStatus
  pub cod_reconciled_at : Option ℕ
  pub city : Option ℕ
  pub total_fare : ℕ
  pub payment_method : PaymentMethod
  pub commission_percent : Option ℕ
  pub commission_amount : Option ℕ
  pub driver_earnings : Option ℤ
  pub earnings_settled : Bool
  pub cancelled_by : Option CancelledBy
  pub accepted_at : Option ℕ
  pub picked_up_at : Option ℕ
  pub delivered_at : Option ℕ
  pub cancelled_at : Option ℕ
  pub driver_rating : Option ℕ

instance abbrev pub order_keyed : Keyed Order
order_keyed = record { key = λ o. o.id }

-- 'delivery.status_changed', and 'delivery.requested' to one courier
pub data Event : Type 0 where
  status_changed : ℕ → Status → Event
  invited : ℕ → ℕ → Event

-- The tables; the wallets and the clock are those of the payments.
pub record Deliveries : Type 0 where
  pub orders : List Order
  pub users : List User
  pub drivers : Drivers
  pub payments : Payments
  pub fleets : Fleets
  pub corporate : Corporate
  pub debts : List Debt
  pub events : List Event

abbrev pub bank_of : Deliveries → Bank
bank_of d = d.payments.bank

module _ {A : Type 0} where
  -- Methods of the other services, called from here.
  abbrev pub on_payments : Action Payments A → Action Deliveries A
  on_payments m d = let (r, payments) = m d.payments in (r, record d { payments = payments })

  abbrev pub on_bank : Action Bank A → Action Deliveries A
  on_bank m d =
      let (r, bank) = m d.payments.bank in
      (r, record d { payments = record d.payments { bank = bank } })

  abbrev pub on_fleets : Action Fleets A → Action Deliveries A
  on_fleets m d = let (r, fleets) = m d.fleets in (r, record d { fleets = fleets })

  abbrev pub on_corporate : Action Corporate A → Action Deliveries A
  on_corporate m d = let (r, corporate) = m d.corporate in (r, record d { corporate = corporate })

  abbrev pub on_drivers : Action Drivers A → Action Deliveries A
  on_drivers m d = let (r, drivers) = m d.drivers in (r, record d { drivers = drivers })

  abbrev pub on_debts : Action Debts A → Action Deliveries A
  on_debts m d =
      let (r, x) = m (record { bank = d.payments.bank; items = d.debts }) in
      (r, record d { payments = record d.payments { bank = x.bank }; debts = x.items })
