-- ===== src/Trips.antt =====
-- src/common/enums/ride.enum.ts and src/rides/entities/ride.entity.ts: the words of rides, and the row of one.
use ryda.Base.{ℕ, ℤ, Bool, true, false, Option, Keyed}

-- RideStatus
pub data RideStatus : Type 0 where
  scheduled requested pool_matching searching accepted arriving arrived in_progress : RideStatus
  completed cancelled no_driver_found : RideStatus

-- RideCategory
pub data RideCategory : Type 0 where
  economy comfort : RideCategory

abbrev pub same_category : RideCategory → RideCategory → Bool
same_category economy economy = true
same_category comfort comfort = true
same_category _ _ = false

-- PaymentMethod
pub data PaymentMethod : Type 0 where
  card by_wallet cash bank_transfer corporate : PaymentMethod

-- CancelledBy
pub data CancelledBy : Type 0 where
  by_passenger by_driver by_system by_admin : CancelledBy

-- DispatchMode
pub data DispatchMode : Type 0 where
  manual auto : DispatchMode

abbrev pub is_manual : DispatchMode → Bool
is_manual manual = true
is_manual auto = false

abbrev pub is_searching : RideStatus → Bool
is_searching searching = true
is_searching _ = false

-- The columns of a ride that the methods here read or write. Amounts are whole kobo, a percentage is a
-- whole number of hundredths of a percent, and a PIN or a city is a number, since it is only compared.
pub record Ride : Type 0 where
  pub id : ℕ
  pub passenger_id : ℕ
  pub driver_id : Option ℕ
  pub vehicle_id : Option ℕ
  pub category : RideCategory
  pub status : RideStatus
  pub dispatch_mode : DispatchMode
  pub city : Option ℕ
  pub waiting_fee : ℕ
  pub cancellation_fee : Option ℕ
  pub total_fare : ℕ
  pub tip_amount : ℕ
  pub verification_pin : Option ℕ
  pub is_pin_verified : Bool
  pub pin_attempt_count : ℕ
  pub commission_percent : Option ℕ
  pub commission_amount : Option ℕ
  pub driver_earnings : Option ℤ
  pub earnings_settled : Bool
  pub payment_method : PaymentMethod
  pub passenger_rating : Option ℕ
  pub driver_rating : Option ℕ
  pub cancelled_by : Option CancelledBy
  pub accepted_at : Option ℕ
  pub arrived_at : Option ℕ
  pub started_at : Option ℕ
  pub completed_at : Option ℕ
  pub cancelled_at : Option ℕ
  pub created_at : ℕ

instance abbrev pub ride_keyed : Keyed Ride
ride_keyed = record { key = λ r. r.id }
