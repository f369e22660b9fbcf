-- ===== src/Deliveries.antt =====
-- src/logistics/logistics.service.ts: deliveries, from their acceptance to their delivery or cancellation. The
-- acceptance and the delivery with its payment stand in the children. What the search for couriers
-- finds is an argument; requests and their fares are left out.
pub mod Entities
pub mod Acceptance
pub mod Payment
pub mod Completion
pub mod Progress
pub mod Steps
pub mod Closing
pub mod Cancelled
pub mod Paid
pub mod Handover
pub mod Claims
pub mod Unpaid
mod Tests
use ryda.Base.{
  ℕ, ◌==◌, Bool, true, not, ◌&&◌, is_some, Option, none, some, List, [], ◌∷◌, ◌++◌, some_of, Action,
  ◌>>=◌, ◌>>◌, pure, gets, or_throw, throw_if, modify, lookup, save, delivery_not_found,
  not_your_delivery, not_accepted_yet, not_at_pickup, not_picked_up, delivery_not_cancellable,
  no_cod_shortfall, not_delivered, not_selectable, delivery_changed, courier_unavailable,
  already_rated, no_driver_to_rate,
}
use ryda.Drivers.{find_by_user_id, restore_after_trip}
use ryda.Drivers.Levels.{record_trip_outcome, apply_rating}
use ryda.Drivers.Entities as D
use Entities.{
  Status, pickup_arrived, picked_up, in_transit, cancelled, is_open, is_accepted, can_pick_up,
  is_picked_up, is_delivered, is_closed, is_collected, CancelledBy, is_customer, is_driver, Order,
  status_number, order_keyed, Event, status_changed, invited, Deliveries, bank_of, on_drivers,
}

abbrev pub clock : Deliveries → ℕ
clock d = d.payments.bank.now

-- findById
unfoldable pub find_by_id : ℕ → Action Deliveries Order
find_by_id id d = or_throw (lookup id d.orders) delivery_not_found d

-- `ordersRepo.save(order)`
abbrev pub store : Order → Action Deliveries (Unit {0})
store o = modify λ d. record d { orders = save o d.orders }

abbrev pub emit : Event → Action Deliveries (Unit {0})
emit e = modify λ d. record d { events = d.events ++ e ∷ [] }

abbrev pub is_user : ℕ → Option ℕ → Bool
is_user id o = elim o [ none ↦ Bool.false | some n ↦ n == id ]

-- getOwnedByDriver
unfoldable pub get_owned_by_driver : ℕ → ℕ → Action Deliveries Order
get_owned_by_driver id driver_id = do
  order ← find_by_id id
  throw_if (not (is_user driver_id order.driver_id)) not_your_delivery
  pure order

-- selectCourier, with the drivers whom the search finds
unfoldable pub select_courier : List ℕ → ℕ → ℕ → ℕ → Action Deliveries Order
select_courier found id customer_id driver_id = do
  order ← find_by_id id
  throw_if (not (order.customer_id == customer_id)) not_your_delivery
  throw_if (not (is_open order.status)) not_selectable
  throw_if (not (some_of (λ c. c == driver_id) found)) courier_unavailable
  emit (invited order.id driver_id)
  let saved : Order = record order { pending_courier = some driver_id }
  store saved
  pure saved

-- reconcileCodShortfall
unfoldable pub reconcile_cod_shortfall : ℕ → Action Deliveries Order
reconcile_cod_shortfall id = do
  order ← find_by_id id
  let complete : Bool = elim order.cod_status [ none ↦ Bool.false | some s ↦ is_collected s ]
  throw_if (not order.is_cod) no_cod_shortfall
  throw_if complete no_cod_shortfall
  now ← gets clock
  let saved : Order = record order { cod_reconciled_at = some now }
  store saved
  pure saved

-- rateDriver
unfoldable pub rate_driver : ℕ → ℕ → ℕ → Action Deliveries Order
rate_driver id customer_id rating = do
  order ← find_by_id id
  throw_if (not (order.customer_id == customer_id)) not_your_delivery
  throw_if (not (is_delivered order.status)) not_delivered
  throw_if (is_some order.driver_rating) already_rated
  driver_id ← or_throw order.driver_id no_driver_to_rate
  let saved : Order = record order { driver_rating = some rating }
  store saved
  profile ← on_drivers (find_by_user_id driver_id)
  on_drivers (apply_rating profile.id rating)
  pure saved

-- The save of a step, and its event
abbrev pub advance : Order → Action Deliveries Order
advance saved = store saved >> emit (status_changed saved.id saved.status) >> pure saved

-- markPickupArrived
unfoldable pub mark_pickup_arrived : ℕ → ℕ → Action Deliveries Order
mark_pickup_arrived id driver_id = do
  order ← get_owned_by_driver id driver_id
  throw_if (not (is_accepted order.status)) not_accepted_yet
  advance (record order { status = pickup_arrived })

-- markPickedUp
unfoldable pub mark_picked_up : ℕ → ℕ → Action Deliveries Order
mark_picked_up id driver_id = do
  order ← get_owned_by_driver id driver_id
  throw_if (not (can_pick_up order.status)) not_at_pickup
  now ← gets clock
  advance (record order { status = picked_up; picked_up_at = some now })

-- markInTransit
unfoldable pub mark_in_transit : ℕ → ℕ → Action Deliveries Order
mark_in_transit id driver_id = do
  order ← get_owned_by_driver id driver_id
  throw_if (not (is_picked_up order.status)) not_picked_up
  advance (record order { status = in_transit })

-- The guards of cancelDelivery
unfoldable pub check_cancel : ℕ → ℕ → CancelledBy → Action Deliveries Order
check_cancel id actor_id who = do
  order ← find_by_id id
  throw_if (is_customer who && not (order.customer_id == actor_id)) not_your_delivery
  throw_if (is_driver who && not (is_user actor_id order.driver_id)) not_your_delivery
  throw_if (is_closed order.status) delivery_not_cancellable
  pure order

-- The driver of a cancelled delivery is free again.
unfoldable pub release_driver : ℕ → Order → Action Deliveries (Unit {0})
release_driver log_id order = elim order.driver_id [
  | none ↦ pure tt
  | some driver_id ↦ on_drivers (find_by_user_id driver_id) >>= λ profile.
      on_drivers (record_trip_outcome profile.id D.cancelled)
      >> on_drivers (restore_after_trip log_id driver_id)
      >> pure tt
]

-- The conditional update of cancelDelivery: only while the row has the status that was read.
unfoldable pub claim_cancellation : ℕ → CancelledBy → Order → Action Deliveries (Unit {0})
claim_cancellation now who order = do
  current ← or_throw (← gets (λ d. lookup order.id d.orders)) delivery_changed
  throw_if (not (status_number current.status == status_number order.status)) delivery_changed
  store (record current { status = cancelled; cancelled_at = some now; cancelled_by = some who })

-- cancelDelivery
unfoldable pub cancel_delivery : ℕ → ℕ → ℕ → CancelledBy → Action Deliveries Order
cancel_delivery log_id id actor_id who = do
  order ← check_cancel id actor_id who
  now ← gets clock
  let gone : Order = record order {
    status = cancelled;
    cancelled_at = some now;
    cancelled_by = some who;
  }
  claim_cancellation now who order
  release_driver log_id gone
  emit (status_changed gone.id cancelled)
  pure gone
