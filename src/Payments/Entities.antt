-- ===== src/Payments/Entities.antt =====
-- src/payments/entities/*.entity.ts, and the state that the payment methods work on.
use ryda.Base.{ℕ, Bool, true, false, Option, List, Keyed, Action}
use ryda.Trips.{PaymentMethod, card}
use ryda.Wallets.Entities.{Bank}
use ryda.Fraud.{Flag}

-- PaymentStatus
pub data Status : Type 0 where
  pending success failed refunded partially_refunded : Status

abbrev pub is_pending : Status → Bool
is_pending pending = true
is_pending _ = false

abbrev pub is_success : Status → Bool
is_success success = true
is_success _ = false

abbrev pub is_failed : Status → Bool
is_failed failed = true
is_failed _ = false

-- REFUNDED or PARTIALLY_REFUNDED
abbrev pub has_refund : Status → Bool
has_refund refunded = true
has_refund partially_refunded = true
has_refund _ = false

-- SUCCESS or PARTIALLY_REFUNDED
abbrev pub is_refundable : Status → Bool
is_refundable success = true
is_refundable partially_refunded = true
is_refundable _ = false

abbrev pub is_card : PaymentMethod → Bool
is_card card = true
is_card _ = false

-- Amounts are whole kobo; a reference is a number, since it is only compared.
pub record Payment : Type 0 where
  pub id : ℕ
  pub ride_id : Option ℕ
  pub user_id : ℕ
  pub method : PaymentMethod
  pub amount : ℕ
  pub status : Status
  pub reference : ℕ
  pub simulated : Bool
  pub gateway_reference : Option ℕ
  pub refunded_amount : Option ℕ
  pub pending_refund : Option ℕ
  pub created_at : ℕ

instance abbrev pub payment_keyed : Keyed Payment
payment_keyed = record { key = λ p. p.id }

pub record SavedCard : Type 0 where
  pub id : ℕ
  pub user_id : ℕ
  pub authorization_code : ℕ
  pub is_default : Bool
  pub created_at : ℕ

instance abbrev pub card_keyed : Keyed SavedCard
card_keyed = record { key = λ c. c.id }

-- DisputeStatus
pub data DisputeStatus : Type 0 where
  awaiting_merchant_feedback awaiting_bank_feedback open_dispute resolved : DisputeStatus

abbrev pub is_resolved : DisputeStatus → Bool
is_resolved resolved = true
is_resolved _ = false

-- DisputeResolution
pub data Resolution : Type 0 where
  merchant_accepted declined : Resolution

pub record Dispute : Type 0 where
  pub id : ℕ
  pub paystack_dispute_id : ℕ
  pub payment_reference : ℕ
  pub user_id : Option ℕ
  pub amount : ℕ
  pub status : DisputeStatus
  pub resolution : Option Resolution
  pub due_at : Option ℕ

instance abbrev pub dispute_keyed : Keyed Dispute
dispute_keyed = record { key = λ d. d.id }

-- 'payment.confirmed'
pub record Confirmed : Type 0 where
  pub ride_id : ℕ
  pub payment_id : ℕ

-- The tables; the clock is that of the wallets.
pub record Payments : Type 0 where
  pub records : List Payment
  pub cards : List SavedCard
  pub disputes : List Dispute
  pub bank : Bank
  pub flags : List Flag
  pub events : List Confirmed

-- A method of the wallets, called from here.
abbrev pub on_bank : {A : Type 0} → Action Bank A → Action Payments A
on_bank m p = let (r, bank) = m p.bank in (r, record p { bank = bank })
