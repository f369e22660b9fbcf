-- ===== src/Payments/Credited.antt =====
-- How often a top-up is credited by one report.
use ryda.Base.{
  ℕ, ◌+◌, ◌==◌, ◌≡◌, ◌≤◌, refl, Bool, false, ◌&&◌, none, some, ℤ, pos, ◌+ℤ◌, arith, after, lookup,
  save, length, keep, count-snoc, Option-cases, inl, inr, if◌then◌else◌, ◌>>◌,
}
use ryda.Settings.{Settings}
use ryda.Wallets.{wallet_of, get_by_user_id, credit}
use ryda.Wallets.Entities.{wallet_keyed, Bank, WalletTransaction, credit_direction, topup, is_topup}
use ryda.Base.{Bool-cases, find_first-holds}
use ryda.Payments.{store, by_reference, credit_wallet_from_top_up, save_card_from_verification}
use ryda.Payments.Entities.{Payment, payment_keyed, Payments, is_success}
use ryda.Payments.Webhooks.{
  confirm, succeeded, mark_success_from_webhook, Charge, apply_charge_success_effects,
  charge_success,
}
use ryda.Payments.Unique.{Unique, by_reference-lookup, by_reference-save, save-Unique}
use ryda.Payments.Caps.{apply_fresh-records}

-- A row of the ledger that credits the top-up of a reference.
abbrev pub credits_for : ℕ → WalletTransaction → Bool
credits_for reference t =
    is_topup t.category && elim t.reference_id [ none ↦ false | some n ↦ n == reference ]

-- How often a top-up was credited.
abbrev pub times_credited : ℕ → Payments → ℕ
times_credited reference p = length (keep (credits_for reference) p.bank.transactions)

-- A credit of a top-up adds at most one row, and only for its own reference.
credit_counts :
    (limits : Settings ℤ) (id reference i : ℕ) (amount : ℤ) (b : Bank)
    → length (
        keep
          (credits_for i)
          (after (credit limits id amount topup (some reference)) b).transactions)
      ≤ length (keep (credits_for i) b.transactions) + (if i == reference then 1 else 0)
unfolding credit
credit_counts limits id reference i amount b = elim (Option-cases (lookup id b.wallets)) [
  | inl missing ↦ ground arith
  | inr (w, e) ↦
      let row : WalletTransaction = record {
        wallet_id = w.id;
        direction = credit_direction;
        category = topup;
        amount = amount;
        balance_after = w.balance +ℤ amount;
        reference_id = some reference;
        created_at = b.now;
      } in
      ground (arith, count-snoc (credits_for i) b.transactions row)
]

top_up_counts :
    (limits : Settings ℤ) (i : ℕ) (r : Payment) (p : Payments)
    → times_credited i (after (credit_wallet_from_top_up limits r) p)
      ≤ times_credited i p + (if i == r.reference then 1 else 0)
unfolding credit_wallet_from_top_up get_by_user_id
top_up_counts limits i r p = elim (Option-cases (wallet_of r.user_id p.bank.wallets)) [
  | inl missing ↦ ground arith
  | inr (w, e) ↦ ground (arith, credit_counts limits w.id r.reference i (pos r.amount) p.bank)
]

effects_count :
    (limits : Settings ℤ) (charge : Charge) (i : ℕ) (r : Payment) (p : Payments)
    → times_credited i (after (apply_charge_success_effects limits charge r) p)
      ≤ times_credited i p + (if i == r.reference then 1 else 0)
unfolding apply_charge_success_effects save_card_from_verification
effects_count limits charge i r p = ground (arith, top_up_counts limits i r p)

-- The payment of a reference, credited at most once, and not at all unless it succeeded.
abbrev pub Once : ℕ → Payments → Type 0
Once i p =
    Unique p.records
    × ((r : Payment) × (by_reference i p.records ≡ some r)
        × (times_credited i p ≤ (if is_success r.status then 1 else 0)))

-- The payment of one reference takes another status, and the ledger grows by a credit of it at most.
pub status-Once :
    (i : ℕ) (r r' : Payment) (p p' : Payments)
    → r'.id ≡ r.id
    → r'.reference ≡ r.reference
    → by_reference r.reference p.records ≡ some r
    → is_success r.status ≡ false
    → p'.records ≡ save r' p.records
    → times_credited i p'
      ≤ times_credited i p
        + (if i == r.reference then (if is_success r'.status then 1 else 0) else 0)
    → Once i p
    → Once i p'
status-Once i r r' p p' same_id same e s records counts (u, (q, eq, n)) =
    let found = by_reference-lookup r.reference p.records {r = r} u e in
    let moved = by_reference-save r r' same_id same i p.records u found in
    elim (Bool-cases (i == r.reference)) [
      | inl here ↦ (
        rw records (save-Unique r r' same_id same p.records u found),
        (r', rw records (ground (arith, moved)), ground (arith, e)),
      )
      | inr other ↦ (
        rw records (save-Unique r r' same_id same p.records u found),
        (q, rw records (ground (arith, moved)), ground arith),
      )
    ]

-- The state after a payment was marked as successful, before its effects
abbrev marked : ℕ → Payment → Payments → Payments
marked gateway r p = after (store (succeeded gateway r) >> confirm r) p

pub fresh-Once :
    (limits : Settings ℤ) (charge : Charge) (i : ℕ) (r : Payment) (p : Payments)
    → by_reference r.reference p.records ≡ some r
    → is_success r.status ≡ false
    → Once i p
    → Once i (
        after
          (apply_charge_success_effects limits charge (succeeded charge.gateway r))
          (marked charge.gateway r p))
fresh-Once limits charge i r p e s h =
    let r' = succeeded charge.gateway r in
    let p1 = marked charge.gateway r p in
    status-Once i r r' p (after (apply_charge_success_effects limits charge r') p1) refl refl e s
      (apply_fresh-records limits charge (some (r', false)) p1)
      (effects_count limits charge i r' p1) h

pub charge_success-Once :
    (limits : Settings ℤ) (charge : Charge) (reference i : ℕ) (p : Payments)
    → Once i p
    → Once i (after (charge_success limits charge reference) p)
unfolding charge_success mark_success_from_webhook
charge_success-Once limits charge reference i p h =
    elim (Option-cases (by_reference reference p.records)) [
      | inl missing ↦ ground arith
      | inr (r, e) ↦ elim (Bool-cases (is_success r.status)) [
        | inl old ↦ ground arith
        | inr new ↦ ground (
          arith,
          fresh-Once limits charge i r p,
          find_first-holds (λ (q : Payment). q.reference == reference) p.records {x = r},
        )
      ]
    ]
