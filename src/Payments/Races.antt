-- ===== src/Payments/Races.antt =====
-- The provider's answer to a refund may come after its webhook, since it is waited for outside the lock.
use ryda.Base.{
  ℕ, ◌+◌, ◌≡◌, ◌≤◌, ◌<◌, refl, true, false, Option, none, some, arith, after, lookup, save,
  lookup-save_self, ok,
}
use ryda.Payments.{by_reference}
use ryda.Payments.Entities.{Payment, payment_keyed, Payments, is_refundable}
use ryda.Payments.Refunds.{
  or_zero, check_refund, reserve_locked, reserve_refund, resolved_refund, or_pending,
  finalize_refund, handle_refund_webhook,
}
use ryda.Payments.Unique.{Unique, by_reference-lookup, by_reference-save, save-Unique}
use ryda.Payments.Reserved.{asked}

-- A refund of n that the payment allows.
abbrev pub Allows : ℕ → Payment → Type 0
Allows n r =
    (is_refundable r.status ≡ true)
    × (r.simulated ≡ false)
    × (or_zero r.pending_refund ≡ 0)
    × (1 ≤ n)
    × (or_zero r.refunded_amount + n ≤ r.amount + 1)

check_refund-Allows :
    (n : ℕ) (r : Payment) (p : Payments) → Allows n r → check_refund r n p ≡ (ok tt, p)
unfolding check_refund
check_refund-Allows n r p h = ground arith

reserve-records :
    (n : ℕ) (r : Payment) (p : Payments)
    → lookup r.id p.records ≡ some r
    → Allows n r
    → (after (reserve_refund r.id (some n)) p).records ≡ save (asked r n) p.records
unfolding reserve_refund reserve_locked
reserve-records n r p e h = ground (arith, check_refund-Allows n r p h)

finalize-records :
    (flag_id reference : ℕ) (expected : Option ℕ) (r : Payment) (p : Payments)
    → by_reference reference p.records ≡ some r
    → 1 ≤ or_zero r.pending_refund
    → (after (finalize_refund flag_id reference true expected) p).records
      ≡ save (resolved_refund true (or_pending expected r) r) p.records
unfolding finalize_refund
finalize-records flag_id reference expected r p e h = ground arith

-- A reservation of n, and then an answer that counts m.
abbrev refunded_as : ℕ → ℕ → Option ℕ → Payment → Payments → Payments
refunded_as flag_id n expected r p =
    after (finalize_refund flag_id r.reference true expected)
      (after (reserve_refund r.id (some n)) p)

refunded_row :
    (flag_id n : ℕ) (expected : Option ℕ) (r : Payment) (p : Payments)
    → Unique p.records
    → lookup r.id p.records ≡ some r
    → Allows n r
    → let p' = refunded_as flag_id n expected r p in
      let r' = resolved_refund true (or_pending expected (asked r n)) (asked r n) in
      Unique p'.records × (lookup r.id p'.records ≡ some r')
refunded_row flag_id n expected r p u e h =
    let p1 = after (reserve_refund r.id (some n)) p in
    let r1 = asked r n in
    let r2 = resolved_refund true (or_pending expected r1) r1 in
    let e1 = reserve-records n r p e h in
    let u1 : Unique p1.records = rw e1 (save-Unique r r1 refl refl p.records u e) in
    let f1 : by_reference r.reference p1.records ≡ some r1 =
      rw e1 (ground (arith, by_reference-save r r1 refl refl r.reference p.records u e)) in
    let l1 = by_reference-lookup r.reference p1.records {r = r1} u1 f1 in
    let e2 = finalize-records flag_id r.reference expected r1 p1 f1 (omega (arith, h.3)) in
    (rw e2 (save-Unique r1 r2 refl refl p1.records u1 l1), rw e2 (lookup-save_self r2 p1.records))

-- A refund of a is reserved, and its webhook comes before the provider's answer to the call. A second
-- refund of b is reserved, and now the first call's answer arrives: the payment counts a twice as
-- refunded, and the second refund is no longer in flight.
pub late_answer_counts_twice :
    (flag_id a b : ℕ) (r : Payment) (p : Payments)
    → Unique p.records
    → lookup r.id p.records ≡ some r
    → Allows a r
    → or_zero r.refunded_amount ≡ 0
    → 1 ≤ b
    → a + b ≤ r.amount
    → a + 1 < r.amount
    → let reserved = after (reserve_refund r.id (some a)) p in
      let reported = after (handle_refund_webhook flag_id r.reference true) reserved in
      let again = after (reserve_refund r.id (some b)) reported in
      let p' = after (finalize_refund flag_id r.reference true (some a)) again in
      (r' : Payment) × (lookup r.id p'.records ≡ some r')
      × (r'.refunded_amount ≡ some (a + a))
      × (r'.pending_refund ≡ none)
unfolding handle_refund_webhook
late_answer_counts_twice flag_id a b r p u e h z one fits part =
    let r1 = resolved_refund true a (asked r a) in
    let (u1, l1) = refunded_row flag_id a none r p u e h in
    let p1 = refunded_as flag_id a none r p in
    let h1 : Allows b r1 = ground arith in
    let (u2, l2) = refunded_row flag_id b (some a) r1 p1 u1 l1 h1 in
    (resolved_refund true a (asked r1 b), l2, ground arith, refl)
