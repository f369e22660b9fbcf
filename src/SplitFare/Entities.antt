-- ===== src/SplitFare/Entities.antt =====
-- src/split-fare/entities/*.entity.ts and the state that the split-fare methods work on. Amounts are whole
-- kobo.
use ryda.Base.{ℕ, Bool, true, false, Option, List, Keyed, Action}
use ryda.Users.{User}
use ryda.Wallets.Entities.{Bank}

-- The columns of a ride that a split reads.
pub record Ride : Type 0 where
  pub id : ℕ
  pub passenger_id : ℕ
  pub total_fare : ℕ

instance abbrev pub ride_keyed : Keyed Ride
ride_keyed = record { key = λ r. r.id }

-- SplitFareStatus
pub data Status : Type 0 where
  pending completed cancelled expired : Status

abbrev pub is_pending : Status → Bool
is_pending pending = true
is_pending _ = false

abbrev pub is_expired : Status → Bool
is_expired expired = true
is_expired _ = false

pub record SplitRequest : Type 0 where
  pub id : ℕ
  pub ride_id : ℕ
  pub initiator_id : ℕ
  pub total_amount : ℕ
  pub status : Status
  pub expires_at : Option ℕ

instance abbrev pub request_keyed : Keyed SplitRequest
request_keyed = record { key = λ r. r.id }

-- `paid` is the status PAID; the other status is PENDING.
pub record Participant : Type 0 where
  pub id : ℕ
  pub split_request_id : ℕ
  pub user_id : ℕ
  pub amount_owed : ℕ
  pub paid : Bool

instance abbrev pub participant_keyed : Keyed Participant
participant_keyed = record { key = λ p. p.id }

-- 'split_fare.expired'
pub record SplitExpired : Type 0 where
  pub initiator_id : ℕ
  pub ride_id : ℕ

pub record Splits : Type 0 where
  pub users : List User
  pub bank : Bank
  pub rides : List Ride
  pub requests : List SplitRequest
  pub participants : List Participant
  pub events : List SplitExpired

-- A method of the wallets, called from here.
abbrev pub on_bank : {A : Type 0} → Action Bank A → Action Splits A
on_bank m s = let (r, bank) = m s.bank in (r, record s { bank = bank })
