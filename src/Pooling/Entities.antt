-- ===== src/Pooling/Entities.antt =====
-- src/pooling/entities/pool-group.entity.ts, the columns of src/rides/entities/ride.entity.ts that
-- pooling reads or writes, and the state that its methods work on.
use ryda.Base.{ℕ, Bool, true, false, Option, List, Keyed}
use ryda.Trips.{RideStatus, RideCategory, DispatchMode, pool_matching, completed, cancelled}

pub record Point : Type 0 where
  pub lat : ℕ
  pub lng : ℕ

-- A ride, with its two ends; amounts are whole kobo.
pub record PoolRide : Type 0 where
  pub id : ℕ
  pub driver_id : Option ℕ
  pub vehicle_id : Option ℕ
  pub category : RideCategory
  pub status : RideStatus
  pub dispatch_mode : DispatchMode
  pub city : Option ℕ
  pub pickup : Point
  pub dropoff : Point
  pub total_fare : ℕ
  pub discount : ℕ
  pub pool_discount : ℕ
  pub pool_group_id : Option ℕ
  pub accepted_at : Option ℕ
  pub created_at : ℕ

instance abbrev pub pool_ride_keyed : Keyed PoolRide
pool_ride_keyed = record { key = λ r. r.id }

abbrev pub is_matching : RideStatus → Bool
is_matching pool_matching = true
is_matching _ = false

-- COMPLETED or CANCELLED
abbrev pub is_over : RideStatus → Bool
is_over completed = true
is_over cancelled = true
is_over _ = false

-- PoolRouteStop
pub record RouteStop : Type 0 where
  pub is_pickup : Bool
  pub ride_id : ℕ
  pub place : Point

-- PoolGroupStatus
pub data GroupStatus : Type 0 where
  matched dispatched under_way finished unwound : GroupStatus

-- Distances are whole metres, and durations whole thousandths of a minute.
pub record PoolGroup : Type 0 where
  pub id : ℕ
  pub status : GroupStatus
  pub anchor_ride_id : ℕ
  pub partner_ride_id : ℕ
  pub city : Option ℕ
  pub route_sequence : List RouteStop
  pub total_distance : ℕ
  pub total_duration : ℕ
  pub matched_at : Option ℕ

instance abbrev pub pool_group_keyed : Keyed PoolGroup
pool_group_keyed = record { key = λ g. g.id }

-- The tables, the rides whose window job waits in the queue, and those handed to automatic dispatch.
pub record Pool : Type 0 where
  pub rides : List PoolRide
  pub groups : List PoolGroup
  pub windows : List ℕ
  pub dispatched_rides : List ℕ
  pub now : ℕ
