-- ===== src/Payments/Reserved.antt =====
-- What a payment gives back, and a refund from its reservation to its end.
use ryda.Base.{
  ℕ, ◌+◌, ◌≡◌, refl, Bool, true, false, Option, none, some, List, leb, arith, after, lookup, save,
  every, every-save, Option-cases, inl, inr, lookup-key_of, Result, ok, err, ◌>>=◌, ◌>>◌,
}
use ryda.Base.{pure, transaction, ◌≤◌, or_throw, payment_not_found}
use ryda.Payments.{store, by_reference}
use ryda.Payments.Entities.{Payment, payment_keyed, Payments}
use ryda.Payments.Refunds.{
  or_zero, requested_of, check_refund, reserve_locked, reserve_refund, resolved_refund, or_pending,
  finalize_refund, RefundAnswer, processed, declined, queued, lost, settle_refund, refund_payment,
}
use ryda.Payments.Unique.{
  Unique, by_reference-lookup, by_reference-save, save-Unique, every-by_reference,
}

-- What was refunded and what is about to be come to no more than the payment and one kobo.
abbrev pub is_capped : Payment → Bool
is_capped r = leb (or_zero r.refunded_amount + or_zero r.pending_refund) (r.amount + 1)

abbrev pub Capped : Payments → Type 0
Capped p = Unique p.records × (every is_capped p.records ≡ true)

-- A row that is saved in place of one with the same id and reference.
pub save-Capped :
    (r r' : Payment) (rs : List Payment)
    → r'.id ≡ r.id
    → r'.reference ≡ r.reference
    → lookup r.id rs ≡ some r
    → is_capped r' ≡ true
    → Unique rs × (every is_capped rs ≡ true)
    → Unique (save r' rs) × (every is_capped (save r' rs) ≡ true)
save-Capped r r' rs i s e c h = (save-Unique r r' i s rs h.0 e, every-save is_capped r' rs h.1 c)

pub finalize-Capped :
    (flag_id reference : ℕ) (b : Bool) (expected : Option ℕ) (p : Payments)
    → ((r : Payment)
        → by_reference reference p.records ≡ some r
        → or_pending expected r ≡ or_zero r.pending_refund)
    → Capped p
    → Capped (after (finalize_refund flag_id reference b expected) p)
unfolding finalize_refund
finalize-Capped flag_id reference true expected p same h =
    elim (Option-cases (by_reference reference p.records)) [
      | inl missing ↦ ground arith
      | inr (r, e) ↦ ground (
        arith,
        same r,
        save-Capped r (resolved_refund true (or_pending expected r) r) p.records refl refl,
        by_reference-lookup reference p.records {r = r} h.0,
        every-by_reference is_capped reference p.records {r = r},
      )
    ]
finalize-Capped flag_id reference false expected p same h =
    elim (Option-cases (by_reference reference p.records)) [
      | inl missing ↦ ground arith
      | inr (r, e) ↦ ground (
        arith,
        save-Capped r (resolved_refund false (or_pending expected r) r) p.records refl refl,
        by_reference-lookup reference p.records {r = r} h.0,
        every-by_reference is_capped reference p.records {r = r},
      )
    ]

-- A reservation that goes through leaves a row that is found by its reference, with what was asked for
-- in flight.
abbrev Reserved : Result (Payment × ℕ) × Payments → Type 0
Reserved (ok (r, n), p) =
    (by_reference r.reference p.records ≡ some r) × (or_zero r.pending_refund ≡ n)
Reserved (err _, p) = Unit

-- The guards let through what fits, and write nothing.
abbrev pub Fits : Payment → ℕ → Payments → Result (Unit {0}) × Payments → Type 0
Fits r n p (ok _, p') = (p' ≡ p) × (or_zero r.refunded_amount + n ≤ r.amount + 1)
Fits r n p (err _, p') = p' ≡ p

pub check_refund-Fits : (r : Payment) (n : ℕ) (p : Payments) → Fits r n p (check_refund r n p)
unfolding check_refund
check_refund-Fits r n p = ground arith

abbrev pub asked : Payment → ℕ → Payment
asked r n = record r { pending_refund = some n }

fitting_row :
    (r : Payment) (n : ℕ)
    → or_zero r.refunded_amount + n ≤ r.amount + 1
    → is_capped (asked r n) ≡ true
fitting_row r n h = ground arith

-- What a reservation must leave, also inside its transaction.
abbrev Holds : Payments → Result (Payment × ℕ) × Payments → Type 0
Holds p (ok (r, n), p') =
    Capped p' × (by_reference r.reference p'.records ≡ some r) × (or_zero r.pending_refund ≡ n)
Holds p (err _, p') = Unit

finish_locked :
    (n : ℕ) (r : Payment) (p : Payments) (checked : Result (Unit {0}) × Payments)
    → Capped p
    → lookup r.id p.records ≡ some r
    → Fits r n p checked
    → Holds p (((λ _. checked) >> (store (asked r n) >> pure (asked r n, n))) p)
finish_locked n r p (err _, p') h e f = tt
finish_locked n r p (ok _, p') h e (same, fits) = rw same (
  save-Capped r (asked r n) p.records refl refl e (fitting_row r n fits) h,
  ground (arith, by_reference-save r (asked r n) refl refl r.reference p.records h.0),
  refl,
)

reserve_locked-Holds :
    (amount? : Option ℕ) (r : Payment) (p : Payments)
    → Capped p
    → lookup r.id p.records ≡ some r
    → Holds p (reserve_locked amount? r p)
unfolding reserve_locked
reserve_locked-Holds amount? r p h e =
    finish_locked (requested_of r amount?) r p (check_refund r (requested_of r amount?) p) h e
      (check_refund-Fits r (requested_of r amount?) p)

undo :
    (p : Payments) (locked : Result (Payment × ℕ) × Payments)
    → Capped p
    → Holds p locked
    → let done = transaction {A = Payment × ℕ} (λ _. locked) p in Capped (done.1) × Reserved done
undo p (ok (r, n), p') h k = (k.0, (k.1, k.2))
undo p (err _, p') h k = (h, tt)

found_reserve :
    (id : ℕ) (amount? : Option ℕ) (p : Payments) (found : Option Payment)
    → Capped p
    → lookup id p.records ≡ found
    → let done =
        transaction {A = Payment × ℕ}
          (or_throw found payment_not_found >>= λ r. reserve_locked amount? r)
          p in
      Capped (done.1) × Reserved done
found_reserve id amount? p none h e = (h, tt)
found_reserve id amount? p (some r) h e =
    undo p (reserve_locked amount? r p) h
      (reserve_locked-Holds amount? r p h (lookup-key_of id {v = r} p.records e))

reserve-Capped :
    (id : ℕ) (amount? : Option ℕ) (p : Payments)
    → Capped p
    → Capped (after (reserve_refund id amount?) p) × Reserved (reserve_refund id amount? p)
unfolding reserve_refund
reserve-Capped id amount? p h = found_reserve id amount? p (lookup id p.records) h refl

settle-Capped :
    (flag_id : ℕ) (answer : RefundAnswer) (r : Payment) (p : Payments)
    → Capped p
    → by_reference r.reference p.records ≡ some r
    → Capped (after (settle_refund flag_id answer r.reference (or_zero r.pending_refund)) p)
unfolding settle_refund
settle-Capped flag_id processed r p h e =
    finalize-Capped flag_id r.reference true (some (or_zero r.pending_refund)) p
      (λ q eq. ground arith) h
settle-Capped flag_id declined r p h e = ground (
  arith,
  finalize-Capped flag_id r.reference false (some (or_zero r.pending_refund)) p
      (λ q eq. ground arith) h,
)
settle-Capped flag_id queued r p h e = h
settle-Capped flag_id lost r p h e = ground (
  arith,
  finalize-Capped flag_id r.reference false (some (or_zero r.pending_refund)) p
      (λ q eq. ground arith) h,
)

finish_refund :
    (flag_id : ℕ) (answer : RefundAnswer) (p : Payments)
    (reserved : Result (Payment × ℕ) × Payments)
    → Capped (reserved.1)
    → Reserved reserved
    → Capped (after ((λ _. reserved) >>= λ q. settle_refund flag_id answer q.0.reference q.1) p)
finish_refund flag_id answer p (err _, p') h e = h
finish_refund flag_id answer p (ok (r, n), p') h e =
    ground (arith, settle-Capped flag_id answer r p' h e.0)

pub refund-Capped :
    (flag_id : ℕ) (answer : RefundAnswer) (id : ℕ) (amount? : Option ℕ) (p : Payments)
    → Capped p
    → Capped (after (refund_payment flag_id answer id amount?) p)
unfolding refund_payment
refund-Capped flag_id answer id amount? p h =
    let (h', e) = reserve-Capped id amount? p h in
    ground (arith, finish_refund flag_id answer p (reserve_refund id amount? p) h' e)
