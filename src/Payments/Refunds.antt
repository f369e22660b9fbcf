-- ===== src/Payments/Refunds.antt =====
-- src/payments/payments.service.ts: refunds, which are reserved under a lock, asked for outside it, and
-- finalized by the answer or by a later webhook.
use ryda.Base.{
  ℕ, ◌+◌, ◌-◌, ◌==◌, ltb, leb, Bool, true, false, not, ◌&&◌, Option, none, some, List,
  if◌then◌else◌, length, keep, Action, ◌>>=◌, ◌>>◌, pure, throw, gets, or_throw, throw_if, modify,
  transaction, lookup, payment_not_found, not_refundable, simulated_payment, refund_in_progress,
  nothing_to_refund, refund_exceeds, refund_declined, gateway_unreachable,
}
use ryda.Fraud.{check_excessive_refunds}
use ryda.Payments.{clock, store, by_reference}
use ryda.Payments.Entities.{
  refunded, partially_refunded, has_refund, is_refundable, Payment, payment_keyed, Payments,
}

-- `parseFloat(amount ?? '0')`
abbrev pub or_zero : Option ℕ → ℕ
or_zero none = 0
or_zero (some n) = n

-- `amount ?? remaining`
abbrev pub requested_of : Payment → Option ℕ → ℕ
requested_of r none = r.amount - or_zero r.refunded_amount
requested_of r (some amount) = amount

-- The guards of reserveRefund on the locked row, with a tolerance of one kobo
unfoldable pub check_refund : Payment → ℕ → Action Payments (Unit {0})
check_refund r requested = do
  throw_if (not (is_refundable r.status)) not_refundable
  throw_if r.simulated simulated_payment
  throw_if (ltb 0 (or_zero r.pending_refund)) refund_in_progress
  throw_if (requested == 0) nothing_to_refund
  throw_if (ltb (r.amount + 1) (or_zero r.refunded_amount + requested)) refund_exceeds

-- The reservation, once the locked row is read
unfoldable pub reserve_locked : Option ℕ → Payment → Action Payments (Payment × ℕ)
reserve_locked amount? r = do
  check_refund r (requested_of r amount?)
  let reserved : Payment = record r { pending_refund = some (requested_of r amount?) }
  store reserved
  pure (reserved, requested_of r amount?)

-- reserveRefund
unfoldable pub reserve_refund : ℕ → Option ℕ → Action Payments (Payment × ℕ)
reserve_refund id amount? = transaction (do
  r ← or_throw (← gets (λ p. lookup id p.records)) payment_not_found
  reserve_locked amount? r)

-- The row that a refund of an amount leaves
abbrev pub resolved_refund : Bool → ℕ → Payment → Payment
resolved_refund false amount r = record r { pending_refund = none }
resolved_refund true amount r = record r {
  refunded_amount = some (or_zero r.refunded_amount + amount);
  status =
      if leb r.amount (or_zero r.refunded_amount + amount + 1)
      then refunded
      else partially_refunded;
  pending_refund = none;
}

-- The refunded payments of a user in the last thirty days
abbrev pub recent_refunds : ℕ → ℕ → List Payment → ℕ
recent_refunds now user_id records = length (
    keep (λ r. r.user_id == user_id && has_refund r.status && ltb now (r.created_at + 2592000000))
      records)

abbrev pub flag_refund : ℕ → Bool → Payment → Payments → Payments
flag_refund flag_id false r p = p
flag_refund flag_id true r p = record p {
  flags =
      check_excessive_refunds (record { now = clock p; id = flag_id }) r.user_id
        (recent_refunds (clock p) r.user_id p.records) p.flags;
}

-- `expectedAmount ?? pending`
abbrev pub or_pending : Option ℕ → Payment → ℕ
or_pending none r = or_zero r.pending_refund
or_pending (some n) r = n

-- finalizeRefund
unfoldable pub finalize_refund : ℕ → ℕ → Bool → Option ℕ → Action Payments (Unit {0})
finalize_refund flag_id reference succeeded expected p = elim (by_reference reference p.records) [
  | none ↦ pure tt p
  | some r ↦
      if or_zero r.pending_refund == 0
      then pure tt p
      else (store (resolved_refund succeeded (or_pending expected r) r)
            >> modify (flag_refund flag_id succeeded r))
          p
]

-- What the provider answers to a refund: one of the terminal statuses, another, or nothing.
pub data RefundAnswer : Type 0 where
  processed declined queued lost : RefundAnswer

-- What refundPayment does with the answer
unfoldable pub settle_refund : ℕ → RefundAnswer → ℕ → ℕ → Action Payments (Unit {0})
settle_refund flag_id processed reference requested =
    finalize_refund flag_id reference true (some requested)
settle_refund flag_id declined reference requested =
    finalize_refund flag_id reference false (some requested) >> throw refund_declined
settle_refund flag_id queued reference requested = pure tt
settle_refund flag_id lost reference requested =
    finalize_refund flag_id reference false (some requested) >> throw gateway_unreachable

-- refundPayment
unfoldable pub refund_payment : ℕ → RefundAnswer → ℕ → Option ℕ → Action Payments Payment
refund_payment flag_id answer id amount? = do
  reserved ← reserve_refund id amount?
  settle_refund flag_id answer reserved.0.reference reserved.1
  or_throw (← gets (λ p. lookup id p.records)) payment_not_found

-- handleRefundWebhook
unfoldable pub handle_refund_webhook : ℕ → ℕ → Bool → Action Payments (Unit {0})
handle_refund_webhook flag_id reference succeeded = finalize_refund flag_id reference succeeded none
