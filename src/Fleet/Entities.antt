-- ===== src/Fleet/Entities.antt =====
-- src/fleet/entities/*.entity.ts and the state that the fleet methods work on. Amounts are whole kobo.
use ryda.Base.{ℕ, ℤ, Bool, true, false, Option, List, Keyed}
use ryda.Wallets.Entities.{Direction}

-- FleetCompany
pub record Company : Type 0 where
  pub id : ℕ
  pub owner_user_id : ℕ
  pub is_active : Bool

instance abbrev pub company_keyed : Keyed Company
company_keyed = record { key = λ c. c.id }

-- FleetStaffRole
pub data Role : Type 0 where
  owner manager : Role

abbrev pub is_owner : Role → Bool
is_owner owner = true
is_owner manager = false

pub record Staff : Type 0 where
  pub id : ℕ
  pub fleet_company_id : ℕ
  pub user_id : ℕ
  pub role : Role

instance abbrev pub staff_keyed : Keyed Staff
staff_keyed = record { key = λ s. s.id }

pub record FleetWallet : Type 0 where
  pub id : ℕ
  pub fleet_company_id : ℕ
  pub balance : ℤ

instance abbrev pub fleet_wallet_keyed : Keyed FleetWallet
fleet_wallet_keyed = record { key = λ w. w.id }

-- FleetTransactionCategory
pub data Category : Type 0 where
  ride_earning payout adjustment : Category

pub record FleetTransaction : Type 0 where
  pub fleet_wallet_id : ℕ
  pub direction : Direction
  pub category : Category
  pub amount : ℤ
  pub balance_after : ℤ
  pub reference_id : Option ℕ

-- FleetPayoutStatus
pub data PayoutStatus : Type 0 where
  pending processing success failed : PayoutStatus

pub record Payout : Type 0 where
  pub id : ℕ
  pub fleet_company_id : ℕ
  pub amount : ℤ
  pub status : PayoutStatus
  pub simulated : Bool
  pub transfer_code : Option ℕ

instance abbrev pub payout_keyed : Keyed Payout
payout_keyed = record { key = λ p. p.id }

pub record Fleets : Type 0 where
  pub companies : List Company
  pub staff : List Staff
  pub wallets : List FleetWallet
  pub transactions : List FleetTransaction
  pub payouts : List Payout
