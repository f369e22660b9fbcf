-- ===== src/Payments/Disputes.antt =====
-- src/payments/payments.service.ts: the disputes that the provider reports, one row for each of its ids.
use ryda.Base.{
  ℕ, ◌==◌, Bool, false, ◌&&◌, Option, none, some, List, if◌then◌else◌, length, keep, find_first,
  Action, ◌>>◌, pure, modify, save,
}
use ryda.Fraud.{check_chargeback_history}
use ryda.Payments.{clock, by_reference}
use ryda.Payments.Entities.{
  DisputeStatus, Resolution, Dispute, dispute_keyed, is_resolved, Payment, Payments,
}

-- The dispute as the event gives it.
pub record Report : Type 0 where
  pub paystack_dispute_id : ℕ
  pub status : DisputeStatus
  pub resolution : Option Resolution
  pub amount : ℕ
  pub due_at : Option ℕ
  pub payment_reference : Option ℕ

-- `a ?? b`
abbrev pub or_else : Option ℕ → Option ℕ → Option ℕ
or_else none b = b
or_else (some a) b = some a

abbrev pub dispute_of : ℕ → List Dispute → Option Dispute
dispute_of paystack_id = find_first (λ d. d.paystack_dispute_id == paystack_id)

abbrev pub payer_of : Option Payment → Option ℕ
payer_of none = none
payer_of (some r) = some r.user_id

-- The row before the event, or a new one
abbrev pub row_of : ℕ → Report → ℕ → Option Dispute → Dispute
row_of id report reference (some d) = d
row_of id report reference none = record {
  id = id;
  paystack_dispute_id = report.paystack_dispute_id;
  payment_reference = reference;
  user_id = none;
  amount = report.amount;
  status = report.status;
  resolution = none;
  due_at = none;
}

abbrev pub updated : Report → Option Payment → Dispute → Dispute
updated report payment d = record d {
  user_id = or_else (payer_of payment) d.user_id;
  amount = report.amount;
  status = report.status;
  resolution = report.resolution;
  due_at = or_else report.due_at d.due_at;
}

-- The check after a dispute was resolved
abbrev pub flag_dispute : ℕ → Bool → Dispute → Payments → Payments
flag_dispute flag_id is_resolve d p = elim d.user_id [
  | none ↦ p
  | some user_id ↦
      if is_resolve && is_resolved d.status
      then record p {
        flags =
            check_chargeback_history (record { now = clock p; id = flag_id }) user_id
              (length (
                keep
                  (λ e. elim e.user_id [
                    | none ↦ false
                    | some u ↦ u == user_id && is_resolved e.status
                  ])
                  p.disputes))
              p.flags;
      }
      else p
]

-- handleDisputeWebhook; `is_resolve` tells charge.dispute.resolve from the other two events.
unfoldable pub handle_dispute_webhook : ℕ → ℕ → Bool → Report → Action Payments (Unit {0})
handle_dispute_webhook id flag_id is_resolve report p = elim report.payment_reference [
  | none ↦ pure tt p
  | some reference ↦
      let saved =
        updated report (by_reference reference p.records)
          (row_of id report reference (dispute_of report.paystack_dispute_id p.disputes)) in
      (modify (λ q. record q { disputes = save saved q.disputes })
          >> modify (flag_dispute flag_id is_resolve saved))
        p
]
