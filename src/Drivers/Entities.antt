-- ===== src/Drivers/Entities.antt =====
-- src/drivers/entities/*.entity.ts, src/vehicles/entities/vehicle.entity.ts and the enums of
-- src/common/enums/driver-*.enum.ts, with the state that the driver methods work on. A rating is a whole
-- number of hundredths.
use ryda.Base.{ℕ, Bool, true, false, Option, none, some, List, Keyed}
use ryda.Trips.{RideCategory}

-- DriverService
pub data Service : Type 0 where
  ride delivery : Service

abbrev pub same_service : Service → Service → Bool
same_service ride ride = true
same_service delivery delivery = true
same_service _ _ = false

-- ServiceApprovalStatus
pub data Decision : Type 0 where
  pending approved rejected : Decision

abbrev pub is_granted : Decision → Bool
is_granted approved = true
is_granted _ = false

-- DriverApprovalStatus
pub data Approval : Type 0 where
  awaiting under_review accepted refused suspended : Approval

abbrev pub is_accepted : Approval → Bool
is_accepted accepted = true
is_accepted _ = false

-- DriverAvailability
pub data Availability : Type 0 where
  offline online_for_rides online_for_deliveries online_for_both on_trip on_break : Availability

-- isOnlineAvailability
abbrev pub is_online : Availability → Bool
is_online online_for_rides = true
is_online online_for_deliveries = true
is_online online_for_both = true
is_online _ = false

abbrev pub is_on_trip : Availability → Bool
is_on_trip on_trip = true
is_on_trip _ = false

abbrev pub is_break : Availability → Bool
is_break on_break = true
is_break _ = false

-- isOnlineForService, over ONLINE_STATES_BY_SERVICE
abbrev pub is_online_for : Availability → Service → Bool
is_online_for online_for_rides ride = true
is_online_for online_for_deliveries delivery = true
is_online_for online_for_both _ = true
is_online_for _ _ = false

abbrev pub same_availability : Availability → Availability → Bool
same_availability offline offline = true
same_availability online_for_rides online_for_rides = true
same_availability online_for_deliveries online_for_deliveries = true
same_availability online_for_both online_for_both = true
same_availability on_trip on_trip = true
same_availability on_break on_break = true
same_availability _ _ = false

-- resolveOnlineAvailability, on whether each service is among those picked
abbrev pub resolve_online : Bool → Bool → Option Availability
resolve_online true true = some online_for_both
resolve_online true false = some online_for_rides
resolve_online false true = some online_for_deliveries
resolve_online false false = none

-- DriverLevel
pub data Level : Type 0 where
  rookie standard silver gold platinum diamond elite : Level

-- The outcome of a trip
pub data Outcome : Type 0 where
  completed cancelled : Outcome

abbrev pub is_completed : Outcome → Bool
is_completed completed = true
is_completed cancelled = false

pub record Profile : Type 0 where
  pub id : ℕ
  pub user_id : ℕ
  pub approval : Approval
  pub availability : Availability
  pub last_online : Option Availability
  pub active_vehicle_id : Option ℕ
  pub rating : ℕ
  pub rating_count : ℕ
  pub total_trips : ℕ
  pub completed_trips : ℕ
  pub cancelled_trips : ℕ
  pub level : Level
  pub fleet_company_id : Option ℕ
  pub commission_override_percent : Option ℕ

instance abbrev pub profile_keyed : Keyed Profile
profile_keyed = record { key = λ p. p.id }

-- DriverServiceCapability
pub record Capability : Type 0 where
  pub id : ℕ
  pub driver_profile_id : ℕ
  pub service : Service
  pub decision : Decision

instance abbrev pub capability_keyed : Keyed Capability
capability_keyed = record { key = λ c. c.id }

-- VehicleStatus
pub data VehicleStatus : Type 0 where
  pending_inspection active maintenance deactivated : VehicleStatus

abbrev pub is_active : VehicleStatus → Bool
is_active active = true
is_active _ = false

-- VehicleCategory
pub data VehicleCategory : Type 0 where
  car suv taxi luxury ev motorcycle tricycle van bus truck wheelchair_accessible : VehicleCategory

-- The place of a category in its enum.
abbrev pub category_number : VehicleCategory → ℕ
category_number car = 0
category_number suv = 1
category_number taxi = 2
category_number luxury = 3
category_number ev = 4
category_number motorcycle = 5
category_number tricycle = 6
category_number van = 7
category_number bus = 8
category_number truck = 9
category_number wheelchair_accessible = 10

pub record Vehicle : Type 0 where
  pub id : ℕ
  pub category : VehicleCategory
  pub approved_ride_categories : List RideCategory
  pub status : VehicleStatus

instance abbrev pub vehicle_keyed : Keyed Vehicle
vehicle_keyed = record { key = λ v. v.id }

-- DriverAvailabilityLog; `ended` says whether endedAt is set.
pub record Log : Type 0 where
  pub id : ℕ
  pub driver_user_id : ℕ
  pub status : Availability
  pub ended : Bool

instance abbrev pub log_keyed : Keyed Log
log_keyed = record { key = λ l. l.id }

-- 'driver.online', 'driver.offline', 'driver.availability.changed' and 'driver.approval.changed', each
-- of a user, and 'driver.service_capability.changed' of a driver profile
pub data Event : Type 0 where
  went_online went_offline : ℕ → Event
  availability_changed : ℕ → Availability → Availability → Event
  approval_changed : ℕ → Bool → Event
  capability_changed : ℕ → Service → Decision → Event

pub record Drivers : Type 0 where
  pub profiles : List Profile
  pub capabilities : List Capability
  pub vehicles : List Vehicle
  pub logs : List Log
  pub events : List Event
