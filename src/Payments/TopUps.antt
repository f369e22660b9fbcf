-- ===== src/Payments/TopUps.antt =====
-- A top-up is credited once for the reports that its charge succeeded.
use ryda.Payments.Credited.{Once, status-Once, fresh-Once, charge_success-Once}
use ryda.Base.{
  ℕ, ◌==◌, ◌≡◌, refl, Bool, true, false, ◌&&◌, Option, some, List, [], ◌∷◌, ℤ, pos, ◌+ℤ◌, ◌≤ℤ◌,
  arith, after, result, ok, lookup, save, Option-cases, inl, inr, if◌then◌else◌,
}
use ryda.Settings.{Settings}
use ryda.Wallets.{wallet_of, get_by_user_id, credit, over_maximum}
use ryda.Wallets.Entities.{Wallet, wallet_keyed, Bank, Category, topup}
use mathlib.Core.Path.{subst, sym}
use ryda.Base.{Bool-cases, find_first-holds}
use ryda.Payments.{store, by_reference, credit_wallet_from_top_up}
use ryda.Payments.Entities.{Status, Payment, payment_keyed, Payments, is_success, is_pending}
use ryda.Payments.Webhooks.{
  succeeded, mark_success_from_webhook, mark_failed_from_webhook, Charge,
  apply_charge_success_effects, charge_success, Verification, verified_success, verified_failed,
  still_open, silent, sync_payment, verify_and_sync_by_reference,
}

pending_open : (s : Status) → is_pending s ≡ true → is_success s ≡ false
pending_open s h = ground arith

mark_failed-Once :
    (reference i : ℕ) (r : Payment) (p : Payments)
    → by_reference reference p.records ≡ some r
    → is_success r.status ≡ false
    → Once i p
    → Once i (after (mark_failed_from_webhook reference) p)
unfolding mark_failed_from_webhook
mark_failed-Once reference i r p e s h =
    let r' : Payment = record r { status = Status.failed } in
    ground (
      arith,
      status-Once i r r' p (after (store r') p) refl refl,
      find_first-holds (λ (q : Payment). q.reference == reference) p.records {x = r},
    )

sync-Once :
    (limits : Settings ℤ) (answer : Verification) (reference i : ℕ) (r : Payment) (p : Payments)
    → by_reference reference p.records ≡ some r
    → is_success r.status ≡ false
    → Once i p
    → Once i (after (sync_payment limits answer r reference) p)
unfolding sync_payment mark_success_from_webhook
sync-Once limits (verified_success charge) reference i r p e s h = ground (
  arith,
  fresh-Once limits charge i r p,
  find_first-holds (λ (q : Payment). q.reference == reference) p.records {x = r},
)
sync-Once limits verified_failed reference i r p e s h = mark_failed-Once reference i r p e s h
sync-Once limits still_open reference i r p e s h = h
sync-Once limits silent reference i r p e s h = h

-- The state after a poll of a payment that is known.
poll_known :
    (limits : Settings ℤ) (configured : Bool) (answer : Verification) (user_id reference : ℕ)
    (p : Payments) {r : Payment}
    → by_reference reference p.records ≡ some r
    → after (verify_and_sync_by_reference limits configured answer user_id reference) p ≡ (
        if (r.user_id == user_id) && is_pending r.status && configured
        then after (sync_payment limits answer r reference) p
        else p)
unfolding verify_and_sync_by_reference
poll_known limits configured answer user_id reference p {r} e = ground arith

poll-Once :
    (limits : Settings ℤ) (configured : Bool) (answer : Verification) (user_id reference i : ℕ)
    (p : Payments)
    → Once i p
    → Once i (after (verify_and_sync_by_reference limits configured answer user_id reference) p)
unfolding verify_and_sync_by_reference
poll-Once limits configured answer user_id reference i p h =
    elim (Option-cases (by_reference reference p.records)) [
      | inl missing ↦ ground arith
      | inr (r, e) ↦
          let polled =
            after (verify_and_sync_by_reference limits configured answer user_id reference) in
          let known = poll_known limits configured answer user_id reference p {r = r} e in
          elim (Bool-cases ((r.user_id == user_id) && is_pending r.status && configured)) [
            | inl asked ↦
                let synced = sync_payment limits answer r reference in
                let e1 : polled p ≡ after synced p = ground (arith, known) in
                subst (Once i) (sym e1) (
                  sync-Once limits answer reference i r p e (pending_open r.status (ground arith))
                    h)
            | inr idle ↦ let e1 : polled p ≡ p = ground (arith, known) in subst (Once i) (sym e1) h
          ]
    ]

-- The ways in which the provider reports that a charge succeeded, or is asked for it.
pub data Report : Type 0 where
  webhook : Settings ℤ → Charge → ℕ → Report
  poll : Settings ℤ → Bool → Verification → ℕ → ℕ → Report

abbrev pub heed : Report → Payments → Payments
heed (webhook limits charge reference) = after (charge_success limits charge reference)
heed (poll limits b answer user_id reference) =
    after (verify_and_sync_by_reference limits b answer user_id reference)

abbrev pub heed_all : List Report → Payments → Payments
heed_all [] p = p
heed_all (c ∷ cs) p = heed_all cs (heed c p)

heed-Once : (i : ℕ) (c : Report) (p : Payments) → Once i p → Once i (heed c p)
heed-Once i (webhook limits charge reference) p h =
    charge_success-Once limits charge reference i p h
heed-Once i (poll limits b answer user_id reference) p h =
    poll-Once limits b answer user_id reference i p h

-- However often webhooks report that charges succeeded, and clients ask for it, in whatever order, a
-- top-up is credited at most once, and only if its payment succeeded.
pub heed_all-Once : (i : ℕ) (cs : List Report) (p : Payments) → Once i p → Once i (heed_all cs p)
heed_all-Once i [] p h = h
heed_all-Once i (c ∷ cs) p h = heed_all-Once i cs (heed c p) (heed-Once i c p h)

credit_fits :
    (s : Settings ℤ) (id : ℕ) (amount : ℤ) (c : Category) (ref : Option ℕ) (b : Bank) {w : Wallet}
    → pos 1 ≤ℤ amount
    → lookup id b.wallets ≡ some w
    → over_maximum s c (w.balance +ℤ amount) ≡ false
    → result (credit s id amount c ref) b ≡ ok (record w { balance = w.balance +ℤ amount })
unfolding credit
credit_fits s id amount c ref b {w} h e m = ground arith

credit_given :
    (s : Settings ℤ) (amount : ℤ) (c : Category) (ref : Option ℕ) (b : Bank) {w : Wallet}
    → pos 1 ≤ℤ amount
    → lookup w.id b.wallets ≡ some w
    → over_maximum s c (w.balance +ℤ amount) ≡ false
    → (after (credit s w.id amount c ref) b).wallets
      ≡ save (record w { balance = w.balance +ℤ amount }) b.wallets
unfolding credit
credit_given s amount c ref b {w} h e m = ground arith

-- A webhook that a top-up succeeded, where the payment's status is any but SUCCESS, such as after a
-- refund, and where the credit does not pass the maximum of the wallet: the payer's wallet is credited
-- the amount, no other wallet changes, and the payment is stored as one that succeeded.
pub charge_success-funds :
    (limits : Settings ℤ) (charge : Charge) (reference : ℕ) (p : Payments) {r : Payment}
    {w : Wallet}
    → by_reference reference p.records ≡ some r
    → is_success r.status ≡ false
    → charge.is_top_up ≡ true
    → wallet_of r.user_id p.bank.wallets ≡ some w
    → lookup w.id p.bank.wallets ≡ some w
    → over_maximum limits topup (w.balance +ℤ pos r.amount) ≡ false
    → pos 1 ≤ℤ pos r.amount
    → let p' = after (charge_success limits charge reference) p in
      (p'.bank.wallets ≡ save (record w { balance = w.balance +ℤ pos r.amount }) p.bank.wallets)
      × (p'.records ≡ save (succeeded charge.gateway r) p.records)
unfolding charge_success mark_success_from_webhook apply_charge_success_effects
    credit_wallet_from_top_up get_by_user_id
charge_success-funds limits charge reference p {r} {w} e s t ew el m a = (
  ground (arith, credit_given limits (pos r.amount) topup (some r.reference) p.bank a el m),
  ground (arith, credit_fits limits w.id (pos r.amount) topup (some r.reference) p.bank {w = w}),
)
