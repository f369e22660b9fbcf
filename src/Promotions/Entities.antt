-- ===== src/Promotions/Entities.antt =====
-- src/promotions/entities/*.entity.ts and the state that the promotion methods work on. Amounts are whole
-- kobo; a percentage is a whole number of hundredths of a percent; a code is the list of its characters.
use ryda.Base.{ℕ, Bool, true, false, Option, List, Keyed, Action}
use ryda.Users.{User}
use ryda.Fraud.{Flag, Device}
use ryda.Wallets.Entities.{Bank}

-- PromotionType
pub data PromotionType : Type 0 where
  percentage fixed_amount cashback : PromotionType

abbrev pub is_fixed : PromotionType → Bool
is_fixed fixed_amount = true
is_fixed _ = false

abbrev pub is_cashback : PromotionType → Bool
is_cashback cashback = true
is_cashback _ = false

pub record Promotion : Type 0 where
  pub id : ℕ
  pub code : List ℕ
  pub type : PromotionType
  pub value : ℕ
  pub max_discount_amount : Option ℕ
  pub min_fare_amount : Option ℕ
  pub usage_limit_total : Option ℕ
  pub usage_limit_per_user : ℕ
  pub times_redeemed : ℕ
  pub valid_from : Option ℕ
  pub valid_until : Option ℕ
  pub is_active : Bool

instance abbrev pub promotion_keyed : Keyed Promotion
promotion_keyed = record { key = λ p. p.id }

pub record Redemption : Type 0 where
  pub promotion_id : ℕ
  pub user_id : ℕ
  pub ride_id : ℕ
  pub discount_amount : ℕ
  pub redeemed_at : ℕ

pub record ReferralGrant : Type 0 where
  pub referrer_user_id : ℕ
  pub referee_user_id : ℕ
  pub referrer_bonus : ℕ
  pub referee_bonus : ℕ

pub record Promotions : Type 0 where
  pub promotions : List Promotion
  pub redemptions : List Redemption
  pub grants : List ReferralGrant
  pub users : List User
  pub devices : List Device
  pub flags : List Flag
  pub bank : Bank

-- A method of the wallets, called from here.
abbrev pub on_bank : {A : Type 0} → Action Bank A → Action Promotions A
on_bank m s = let (r, bank) = m s.bank in (r, record s { bank = bank })
