-- ===== src/Payments/Tests.antt =====
-- Runs of the payment methods, and examples of the theorems about them.
use ryda.Base.{
  suc, ◌≡◌, ◌≤◌, refl, true, false, none, some, [], ◌∷◌, pos, ◌+ℤ◌, arith, after, result, lookup,
  err, no_saved_card, save,
}
use ryda.Settings.{Settings}
use ryda.Trips.{card}
use ryda.Wallets.{over_maximum}
use ryda.Wallets.Entities.{Wallet, wallet_keyed}
use ryda.Payments.{Fresh, accepted, unreachable, charge_saved_card, charge_with_retry}
use ryda.Payments.Entities.{Payment, payment_keyed, pending, success, refunded, SavedCard, Payments}
use ryda.Payments.Refunds.{
  processed, queued, reserve_refund, finalize_refund, handle_refund_webhook,
}
use ryda.Payments.Webhooks.{succeeded, Charge, charge_success, verified_success}
use ryda.Payments.Caps.{refund, refund_webhook, failed_webhook, run_all, run_all-Capped}
use ryda.Payments.Reserved.{Capped}
use ryda.Payments.TopUps.{webhook, poll, heed_all, heed_all-Once, charge_success-funds}
use ryda.Payments.Credited.{Once}
use ryda.Payments.Races.{late_answer_counts_twice}
use ryda.Payments.Cards.{defaults, choose, remove, add, run_all_one_default, remove_card_unpayable}
use ryda.Payments.Cards

abbrev no_settings : {A : Type 0} → Settings A
no_settings _ = none

-- A top-up of 1,000 naira that was started.
abbrev started : Payment
started = record {
  id = 1;
  ride_id = none;
  user_id = 20;
  method = card;
  amount = 100000;
  status = pending;
  reference = 7;
  simulated = false;
  gateway_reference = none;
  refunded_amount = none;
  pending_refund = none;
  created_at = 5;
}

abbrev paid : Payment
paid = record started { status = success; gateway_reference = some 99 }

abbrev returned : Payment
returned = record paid { status = refunded; refunded_amount = some 100000 }

abbrev first_card : SavedCard
first_card = record {
  id = 1;
  user_id = 20;
  authorization_code = 31;
  is_default = true;
  created_at = 2;
}

abbrev second_card : SavedCard
second_card = record first_card { id = 2; authorization_code = 32; is_default = false }

abbrev purse : Wallet
purse = record { id = 1; user_id = 20; balance = pos 500; is_frozen = false }

abbrev tables : Payment → Payments
tables r = record {
  records = r ∷ [];
  cards = first_card ∷ second_card ∷ [];
  disputes = [];
  bank = record { wallets = purse ∷ []; transactions = []; events = []; now = 9 };
  flags = [];
  events = [];
}

abbrev charge : Charge
charge = record {
  gateway = 99;
  is_top_up = true;
  authorization_code = some 33;
  card_id = 3;
  flag_id = 1;
}

abbrev fresh : Fresh
fresh = record { id = 2; reference = 8; gateway_reference = 100; flag_id = 1 }

-- The second attempt is answered.
retried :
    charge_with_retry (λ n. elim n [ suc (suc _) ↦ accepted 5 | _ ↦ unreachable ]) 3 1 ≡ accepted 5
unfolding charge_with_retry
retried = refl

run_all-Capped_example : Capped (
    run_all
      (refund 1 queued 1 (some 60000)
        ∷ refund_webhook 2 7 true
        ∷ refund 3 processed 1 none
        ∷ failed_webhook 7
        ∷ [])
      (tables paid))
run_all-Capped_example =
    run_all-Capped
      (refund 1 queued 1 (some 60000)
        ∷ refund_webhook 2 7 true
        ∷ refund 3 processed 1 none
        ∷ failed_webhook 7
        ∷ [])
      (tables paid) ((refl, refl, tt), refl)

heed_all-Once_example : Once 7 (
    heed_all
      (webhook no_settings charge 7
        ∷ poll no_settings true (verified_success charge) 20 7
        ∷ webhook no_settings charge 7
        ∷ [])
      (tables started))
heed_all-Once_example =
    heed_all-Once 7
      (webhook no_settings charge 7
        ∷ poll no_settings true (verified_success charge) 20 7
        ∷ webhook no_settings charge 7
        ∷ [])
      (tables started) ((refl, refl, tt), (started, refl, omega arith))

-- The refunded top-up is credited once more.
charge_success-funds_example :
    let p' = after (charge_success no_settings charge 7) (tables returned) in
    (p'.bank.wallets
      ≡ save
          (record purse { balance = purse.balance +ℤ pos 100000 })
          (tables returned).bank.wallets)
    × (p'.records ≡ save (succeeded charge.gateway returned) (tables returned).records)
unfolding over_maximum ◌+ℤ◌
charge_success-funds_example =
    charge_success-funds no_settings charge 7 (tables returned) {r = returned} {w = purse} refl refl
      refl refl refl refl (omega arith)

-- Of a payment of 1,000 naira, refunds of 900 and 50 are counted as 1,800.
late_answer_counts_twice_example :
    let reserved = after (reserve_refund 1 (some 90000)) (tables paid) in
    let reported = after (handle_refund_webhook 1 7 true) reserved in
    let again = after (reserve_refund 1 (some 5000)) reported in
    let p' = after (finalize_refund 1 7 true (some 90000)) again in
    (r' : Payment) × (lookup 1 p'.records ≡ some r')
    × (r'.refunded_amount ≡ some 180000)
    × (r'.pending_refund ≡ none)
late_answer_counts_twice_example =
    late_answer_counts_twice 1 90000 5000 paid (tables paid) (refl, refl, tt) refl
      (refl, refl, refl, omega arith, omega arith) refl (omega arith) (omega arith) (omega arith)

run_all_one_default_example :
    defaults 20 (Cards.run_all (choose 20 2 ∷ remove 20 2 ∷ add 3 1 20 33 ∷ []) (tables paid)).cards
    ≤ 1
run_all_one_default_example =
    run_all_one_default 20 (choose 20 2 ∷ remove 20 2 ∷ add 3 1 20 33 ∷ []) (tables paid)
      (omega arith)

remove_card_unpayable_example :
    result (charge_saved_card true (λ _. accepted 5) fresh 4 20 1000) (
      Cards.run_all
        (remove 20 3 ∷ choose 21 2 ∷ add 7 1 21 99 ∷ [])
        (Cards.run (remove 20 1) (tables paid)))
    ≡ err no_saved_card
remove_card_unpayable_example =
    remove_card_unpayable (λ _. accepted 5) fresh 4 20 1000
      (remove 20 3 ∷ choose 21 2 ∷ add 7 1 21 99 ∷ []) (tables paid) {c = first_card} (omega arith)
      refl refl
