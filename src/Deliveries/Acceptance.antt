-- ===== src/Deliveries/Acceptance.antt =====
-- src/logistics/logistics.service.ts: acceptDelivery. The first driver to accept wins.
use ryda.Base.{
  ℕ, not, none, some, Action, ◌>>=◌, ◌>>◌, pure, gets, or_throw, throw_if, transaction, lookup,
  delivery_not_acceptable, driver_not_approved, driver_offline, no_active_vehicle,
  vehicle_not_found, vehicle_not_active, vehicle_too_small, delivery_taken,
}
use ryda.Drivers.{find_by_user_id, reserve_for_trip}
use ryda.Drivers.Entities.{Profile, Vehicle, vehicle_keyed, is_online_for, is_active, delivery}
use ryda.Drivers.Entities as D
use ryda.Deliveries.{clock, find_by_id, store, emit}
use ryda.Deliveries.Entities.{
  VehicleType, can_vehicle_cover_delivery, accepted, is_open, Order, order_keyed, status_changed,
  Deliveries, on_drivers,
}

-- The driver's approval, availability and vehicle.
unfoldable pub check_courier : VehicleType → ℕ → Action Deliveries (Unit {0})
check_courier vehicle_type driver_id = do
  profile ← on_drivers (find_by_user_id driver_id)
  throw_if (not (D.is_accepted profile.approval)) driver_not_approved
  throw_if (not (is_online_for profile.availability delivery)) driver_offline
  vehicle_id ← or_throw profile.active_vehicle_id no_active_vehicle
  vehicle ← or_throw (← gets (λ d. lookup vehicle_id d.drivers.vehicles)) vehicle_not_found
  throw_if (not (is_active vehicle.status)) vehicle_not_active
  throw_if (not (can_vehicle_cover_delivery vehicle.category vehicle_type)) vehicle_too_small

-- The checks before the transaction
unfoldable pub check_acceptance : ℕ → ℕ → Action Deliveries (Unit {0})
check_acceptance id driver_id = do
  found ← find_by_id id
  throw_if (not (is_open found.status)) delivery_not_acceptable
  check_courier found.vehicle_type driver_id

-- The callback of the transaction: the driver's row, then the order's where its status still allows it.
unfoldable pub claim_rows : ℕ → ℕ → ℕ → Action Deliveries Order
claim_rows log_id id driver_id = do
  reserved ← on_drivers (reserve_for_trip log_id driver_id delivery)
  current ← or_throw (← gets (λ d. lookup id d.orders)) delivery_taken
  throw_if (not (is_open current.status)) delivery_taken
  now ← gets clock
  let saved : Order = record current {
    driver_id = some driver_id;
    vehicle_id = reserved.active_vehicle_id;
    status = accepted;
    accepted_at = some now;
    pending_courier = none;
  }
  store saved
  pure saved

unfoldable pub claim : ℕ → ℕ → ℕ → Action Deliveries Order
claim log_id id driver_id = transaction (claim_rows log_id id driver_id)

-- acceptDelivery, without driver.availability.changed after the claim
unfoldable pub accept_delivery : ℕ → ℕ → ℕ → Action Deliveries Order
accept_delivery log_id id driver_id = do
  check_acceptance id driver_id
  saved ← claim log_id id driver_id
  emit (status_changed saved.id accepted)
  pure saved
