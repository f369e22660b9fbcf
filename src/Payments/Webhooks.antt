-- ===== src/Payments/Webhooks.antt =====
-- src/payments/payments.service.ts and src/payments/payments.controller.ts: what a payment provider's webhook
-- about a charge does, and the check on demand where none has arrived.
use ryda.Base.{
  ℕ, ◌==◌, Bool, true, false, not, Option, none, some, [], ◌∷◌, ◌++◌, ℤ, if◌then◌else◌, Action,
  ◌>>=◌, ◌>>◌, pure, modify,
}
use ryda.Settings.{Settings}
use ryda.Payments.{store, by_reference, credit_wallet_from_top_up, save_card_from_verification}
use ryda.Payments.Entities.{success, failed, is_success, is_pending, Payment, Payments}

abbrev pub succeeded : ℕ → Payment → Payment
succeeded gateway r = record r { status = success; gateway_reference = some gateway }

-- `events.emit('payment.confirmed', ...)`, for a payment of a ride
abbrev pub confirm : Payment → Action Payments (Unit {0})
confirm r = modify λ p. record p {
  events = elim r.ride_id [
    | none ↦ p.events
    | some ride ↦ p.events ++ record { ride_id = ride; payment_id = r.id } ∷ []
  ];
}

-- markSuccessFromWebhook: the payment, and whether it had been processed before
unfoldable pub mark_success_from_webhook : ℕ → ℕ → Action Payments (Option (Payment × Bool))
mark_success_from_webhook reference gateway p = elim (by_reference reference p.records) [
  | none ↦ pure none p
  | some r ↦
      if is_success r.status
      then pure (some (r, true)) p
      else (store (succeeded gateway r) >> confirm r >> pure (some (succeeded gateway r, false))) p
]

-- markFailedFromWebhook
unfoldable pub mark_failed_from_webhook : ℕ → Action Payments (Option Payment)
mark_failed_from_webhook reference p = elim (by_reference reference p.records) [
  | none ↦ pure none p
  | some r ↦
      let marked : Payment = record r { status = failed } in (store marked >> pure (some marked)) p
]

-- What the provider says of a charge beside its reference: `metadata.purpose` is 'wallet_topup', and the
-- authorization code of the card; and the ids of the rows that a new card may add.
pub record Charge : Type 0 where
  pub gateway : ℕ
  pub is_top_up : Bool
  pub authorization_code : Option ℕ
  pub card_id : ℕ
  pub flag_id : ℕ

-- applyChargeSuccessEffects; the refund of a verification charge is left to the provider.
unfoldable pub apply_charge_success_effects :
    Settings ℤ → Charge → Payment → Action Payments (Unit {0})
apply_charge_success_effects limits charge r =
    if charge.is_top_up then credit_wallet_from_top_up limits r else elim r.ride_id [
      | some _ ↦ pure tt
      | none ↦ elim charge.authorization_code [
        | none ↦ pure tt
        | some code ↦ save_card_from_verification charge.card_id charge.flag_id r.user_id code
      ]
    ]

-- What follows markSuccessFromWebhook, for a webhook and for a check on demand
abbrev pub apply_fresh : Settings ℤ → Charge → Option (Payment × Bool) → Action Payments (Unit {0})
apply_fresh limits charge none = pure tt
apply_fresh limits charge (some (r, already)) =
    if already then pure tt else apply_charge_success_effects limits charge r

-- paystackWebhook on charge.success
unfoldable pub charge_success : Settings ℤ → Charge → ℕ → Action Payments (Unit {0})
charge_success limits charge reference = do
  marked ← mark_success_from_webhook reference charge.gateway
  apply_fresh limits charge marked

-- paystackWebhook on charge.failed
unfoldable pub charge_failed : ℕ → Action Payments (Unit {0})
charge_failed reference = mark_failed_from_webhook reference >> pure tt

-- What the provider answers about a reference.
pub data Verification : Type 0 where
  verified_success : Charge → Verification
  verified_failed still_open silent : Verification

abbrev pub of_marked : Payment → Option (Payment × Bool) → Payment
of_marked r none = r
of_marked r (some (r', _)) = r'

-- The part of verifyAndSyncByReference that follows the provider's answer
unfoldable pub sync_payment :
    Settings ℤ → Verification → Payment → ℕ → Action Payments (Option Payment)
sync_payment limits (verified_success charge) r reference = do
  marked ← mark_success_from_webhook reference charge.gateway
  apply_fresh limits charge marked
  pure (some (of_marked r marked))
sync_payment limits verified_failed r reference = mark_failed_from_webhook reference
sync_payment limits still_open r reference = pure (some r)
sync_payment limits silent r reference = pure (some r)

-- verifyAndSyncByReference
unfoldable pub verify_and_sync_by_reference :
    Settings ℤ → Bool → Verification → ℕ → ℕ → Action Payments (Option Payment)
verify_and_sync_by_reference limits configured answer user_id reference p =
    elim (by_reference reference p.records) [
      | none ↦ pure none p
      | some r ↦
          if not (r.user_id == user_id)
          then pure none p
          else if not (is_pending r.status)
          then pure (some r) p
          else if not configured
          then pure (some r) p
          else sync_payment limits answer r reference p
    ]
