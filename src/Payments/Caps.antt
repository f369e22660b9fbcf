-- ===== src/Payments/Caps.antt =====
-- What a payment gives back.
use ryda.Payments.Reserved.{is_capped, Capped, save-Capped, finalize-Capped, refund-Capped}
use ryda.Base.{
  ℕ, ◌≡◌, refl, Bool, true, false, Option, none, some, List, [], ◌∷◌, ℤ, arith, after, Option-cases,
  inl, inr, Result, ok, err, ◌>>=◌,
}
use ryda.Settings.{Settings}
use ryda.Payments.{by_reference, credit_wallet_from_top_up, save_card_from_verification}
use ryda.Payments.Entities.{Status, Payment, payment_keyed, Payments}
use ryda.Payments.Refunds.{RefundAnswer, refund_payment, handle_refund_webhook}
use ryda.Payments.Webhooks.{
  succeeded, mark_success_from_webhook, mark_failed_from_webhook, Charge,
  apply_charge_success_effects, apply_fresh, charge_success, charge_failed, Verification,
  verified_success, verified_failed, still_open, silent, sync_payment, verify_and_sync_by_reference,
}
use ryda.Payments.Unique.{by_reference-lookup, every-by_reference}

mark_success-Capped :
    (reference gateway : ℕ) (p : Payments)
    → Capped p
    → Capped (after (mark_success_from_webhook reference gateway) p)
unfolding mark_success_from_webhook
mark_success-Capped reference gateway p h = elim (Option-cases (by_reference reference p.records)) [
  | inl missing ↦ ground arith
  | inr (r, e) ↦ ground (
    arith,
    save-Capped r (succeeded gateway r) p.records refl refl,
    by_reference-lookup reference p.records {r = r} h.0,
    every-by_reference is_capped reference p.records {r = r},
  )
]

mark_failed-Capped :
    (reference : ℕ) (p : Payments)
    → Capped p
    → Capped (after (mark_failed_from_webhook reference) p)
unfolding mark_failed_from_webhook
mark_failed-Capped reference p h = elim (Option-cases (by_reference reference p.records)) [
  | inl missing ↦ ground arith
  | inr (r, e) ↦ ground (
    arith,
    save-Capped r (record r { status = Status.failed }) p.records refl refl,
    by_reference-lookup reference p.records {r = r} h.0,
    every-by_reference is_capped reference p.records {r = r},
  )
]

pub apply_fresh-records :
    (limits : Settings ℤ) (charge : Charge) (marked : Option (Payment × Bool)) (p : Payments)
    → (after (apply_fresh limits charge marked) p).records ≡ p.records
unfolding apply_charge_success_effects credit_wallet_from_top_up save_card_from_verification
apply_fresh-records limits charge none p = refl
apply_fresh-records limits charge (some (r, true)) p = refl
apply_fresh-records limits charge (some (r, false)) p = ground arith

-- What follows the marking of a payment, whatever it answered.
abbrev Followed : {A : Type 0} → Payments → Result A × Payments → Type 0
Followed p (_, p') = p'.records ≡ p.records

finish_success :
    (limits : Settings ℤ) (charge : Charge) (p : Payments)
    (marked : Result (Option (Payment × Bool)) × Payments)
    → Capped (marked.1)
    → Capped (after ((λ _. marked) >>= λ m. apply_fresh limits charge m) p)
finish_success limits charge p (err _, p') h = h
finish_success limits charge p (ok m, p') h = rw (apply_fresh-records limits charge m p') h

charge_success-Capped :
    (limits : Settings ℤ) (charge : Charge) (reference : ℕ) (p : Payments)
    → Capped p
    → Capped (after (charge_success limits charge reference) p)
unfolding charge_success
charge_success-Capped limits charge reference p h =
    finish_success limits charge p (mark_success_from_webhook reference charge.gateway p)
      (mark_success-Capped reference charge.gateway p h)

sync-Capped :
    (limits : Settings ℤ) (answer : Verification) (r : Payment) (reference : ℕ) (p : Payments)
    → Capped p
    → Capped (after (sync_payment limits answer r reference) p)
unfolding sync_payment
sync-Capped limits (verified_success charge) r reference p h = ground (
  arith,
  finish_success limits charge p (mark_success_from_webhook reference charge.gateway p)
      (mark_success-Capped reference charge.gateway p h),
)
sync-Capped limits verified_failed r reference p h = mark_failed-Capped reference p h
sync-Capped limits still_open r reference p h = h
sync-Capped limits silent r reference p h = h

verify-Capped :
    (limits : Settings ℤ) (configured : Bool) (answer : Verification) (user_id reference : ℕ)
    (p : Payments)
    → Capped p
    → Capped (after (verify_and_sync_by_reference limits configured answer user_id reference) p)
unfolding verify_and_sync_by_reference
verify-Capped limits configured answer user_id reference p h =
    elim (Option-cases (by_reference reference p.records)) [
      | inl missing ↦ ground arith
      | inr (r, e) ↦ ground (arith, sync-Capped limits answer r reference p h)
    ]

-- The calls that change a payment that exists.
pub data Call : Type 0 where
  refund : ℕ → RefundAnswer → ℕ → Option ℕ → Call
  refund_webhook : ℕ → ℕ → Bool → Call
  success_webhook : Settings ℤ → Charge → ℕ → Call
  failed_webhook : ℕ → Call
  poll : Settings ℤ → Bool → Verification → ℕ → ℕ → Call

abbrev pub run : Call → Payments → Payments
run (refund f answer id amount?) = after (refund_payment f answer id amount?)
run (refund_webhook f reference b) = after (handle_refund_webhook f reference b)
run (success_webhook limits charge reference) = after (charge_success limits charge reference)
run (failed_webhook reference) = after (charge_failed reference)
run (poll limits b answer user_id reference) =
    after (verify_and_sync_by_reference limits b answer user_id reference)

abbrev pub run_all : List Call → Payments → Payments
run_all [] p = p
run_all (c ∷ cs) p = run_all cs (run c p)

run-Capped : (c : Call) (p : Payments) → Capped p → Capped (run c p)
unfolding handle_refund_webhook charge_failed
run-Capped (refund f answer id amount?) p h = refund-Capped f answer id amount? p h
run-Capped (refund_webhook f reference b) p h = finalize-Capped f reference b none p (λ q e. refl) h
run-Capped (success_webhook limits charge reference) p h =
    charge_success-Capped limits charge reference p h
run-Capped (failed_webhook reference) p h = ground (arith, mark_failed-Capped reference p h)
run-Capped (poll limits b answer user_id reference) p h =
    verify-Capped limits b answer user_id reference p h

-- However refunds, their webhooks, and the reports about the charges follow each other, each call finished
-- before the next, no payment gives back more than was paid and one kobo, what is in flight included.
pub run_all-Capped : (cs : List Call) (p : Payments) → Capped p → Capped (run_all cs p)
run_all-Capped [] p h = h
run_all-Capped (c ∷ cs) p h = run_all-Capped cs (run c p) (run-Capped c p h)
