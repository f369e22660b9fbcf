-- ===== src/Wallets/Entities.antt =====
-- src/wallets/entities/*.entity.ts and src/common/enums/transaction.enum.ts, and the state that the wallet
-- methods work on: the two tables, the events emitted so far, and the clock.
use ryda.Base.{ℕ, ℤ, Bool, true, false, Option, List, Keyed}

-- TransactionDirection
pub data Direction : Type 0 where
  credit_direction debit_direction : Direction

-- TransactionCategory
pub data Category : Type 0 where
  ride_payment ride_earning commission topup withdrawal refund bonus cashback referral : Category
  cancellation_fee delivery_payment delivery_earning split_fare_payment : Category
  split_fare_received tip_payment tip_received transfer_sent transfer_received : Category
  admin_adjustment : Category

abbrev pub is_topup : Category → Bool
is_topup topup = true
is_topup _ = false

abbrev pub is_transfer_sent : Category → Bool
is_transfer_sent transfer_sent = true
is_transfer_sent _ = false

pub record Wallet : Type 0 where
  pub id : ℕ
  pub user_id : ℕ
  pub balance : ℤ
  pub is_frozen : Bool

instance abbrev pub wallet_keyed : Keyed Wallet
wallet_keyed = record { key = λ w. w.id }

pub record WalletTransaction : Type 0 where
  pub wallet_id : ℕ
  pub direction : Direction
  pub category : Category
  pub amount : ℤ
  pub balance_after : ℤ
  pub reference_id : Option ℕ
  pub created_at : ℕ

-- The payload of 'wallet.updated'.
pub record WalletUpdated : Type 0 where
  pub wallet_id : ℕ
  pub user_id : ℕ
  pub direction : Direction
  pub amount : ℤ
  pub category : Category

pub record Bank : Type 0 where
  pub wallets : List Wallet
  pub transactions : List WalletTransaction  -- in the order of their creation
  pub events : List WalletUpdated
  pub now : ℕ
