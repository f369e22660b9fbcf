-- ===== src/Payments.antt =====
-- src/payments/payments.service.ts: payment records, saved cards, and the charges that PaymentsService asks
-- the payment provider for. What the provider answers, and the generated ids and references, are
-- arguments. Refunds, webhooks and disputes stand in the children.
pub mod Entities
pub mod Refunds
pub mod Webhooks
pub mod Disputes
pub mod Reconciliation
pub mod Unique
pub mod Caps
pub mod Reserved
pub mod TopUps
pub mod Credited
pub mod Races
pub mod Cards
mod Tests
use ryda.Base.{
  ℕ, zero, suc, ◌+◌, ◌*◌, ◌==◌, ltb, Bool, true, false, not, ◌&&◌, Option, none, some, List, [],
  ◌∷◌, ◌++◌, map, if◌then◌else◌, pos, length, keep, find_first, find_last, Action, Error, ◌>>=◌,
  ◌>>◌, pure, throw, gets, or_throw, throw_if, modify, save, gateway_unreachable,
  gateway_not_configured, below_minimum_top_up, duplicate_top_up, no_saved_card, card_not_found,
}
use ryda.Settings.{Settings}
use ryda.Base.{ℤ}
use ryda.Trips.{PaymentMethod, card, bank_transfer}
use ryda.Wallets.{get_by_user_id, credit}
use ryda.Wallets.Entities.{topup}
use ryda.Fraud.{check_payment_failure_pattern, check_multiple_cards_added}
use Entities.{
  Status, pending, success, failed, is_pending, is_failed, is_card, Payment, payment_keyed,
  SavedCard, card_keyed, Payments, on_bank,
}

-- What the database and `randomUUID` generate for the rows of one call.
pub record Fresh : Type 0 where
  pub id : ℕ
  pub reference : ℕ
  pub gateway_reference : ℕ
  pub flag_id : ℕ

abbrev pub clock : Payments → ℕ
clock p = p.bank.now

-- `paymentsRepo.save(record)`
abbrev pub store : Payment → Action Payments (Unit {0})
store r = modify λ p. record p { records = save r p.records }

-- findByReference
abbrev pub by_reference : ℕ → List Payment → Option Payment
by_reference reference = find_first (λ r. r.reference == reference)

-- A new row, as `paymentsRepo.create` makes it
abbrev pub new_payment : Fresh → Option ℕ → ℕ → PaymentMethod → ℕ → ℕ → Payment
new_payment fresh ride_id user_id method amount now = record {
  id = fresh.id;
  ride_id = ride_id;
  user_id = user_id;
  method = method;
  amount = amount;
  status = pending;
  reference = fresh.reference;
  simulated = false;
  gateway_reference = none;
  refunded_amount = none;
  pending_refund = none;
  created_at = now;
}

-- initCardAdd, for a verification charge of `amount`; the provider may refuse to start it.
unfoldable pub init_card_add : Bool → Bool → Fresh → ℕ → ℕ → Action Payments ℕ
init_card_add configured starts fresh user_id amount = do
  throw_if (not configured) gateway_not_configured
  now ← gets clock
  store (new_payment fresh none user_id card amount now)
  throw_if (not starts) gateway_unreachable
  pure fresh.reference

-- A top-up of the same amount that was started less than 15 seconds ago
abbrev pub is_duplicate : ℕ → ℕ → ℕ → Payment → Bool
is_duplicate now user_id amount r =
    r.user_id == user_id
    && r.amount == amount
    && is_pending r.status
    && ltb now (r.created_at + 15000)

-- initWalletTopUp
unfoldable pub init_wallet_top_up : Bool → Bool → ℕ → Fresh → ℕ → ℕ → Action Payments ℕ
init_wallet_top_up configured starts least fresh user_id amount = do
  throw_if (not configured) gateway_not_configured
  throw_if (ltb amount least) below_minimum_top_up
  now ← gets clock
  recent ← gets (λ p. find_last (is_duplicate now user_id amount) p.records)
  (elim recent [ none ↦ pure tt | some _ ↦ throw duplicate_top_up ])
  let started = new_payment fresh none user_id card amount now
  store started
  (if starts
      then pure tt
      else store (record started { status = failed }) >> throw gateway_unreachable)
  pure fresh.reference

-- creditWalletFromTopUp
unfoldable pub credit_wallet_from_top_up : Settings ℤ → Payment → Action Payments (Unit {0})
credit_wallet_from_top_up limits r = do
  wallet ← on_bank (get_by_user_id r.user_id)
  on_bank (credit limits wallet.id (pos r.amount) topup (some r.reference))
  pure tt

-- getDefaultCard
abbrev pub default_card : ℕ → List SavedCard → Option SavedCard
default_card user_id = find_first (λ c. c.user_id == user_id && c.is_default)

-- setDefaultCard
unfoldable pub set_default_card : ℕ → ℕ → Action Payments SavedCard
set_default_card user_id card_id = do
  found ← gets (λ p. find_first (λ c. c.id == card_id && c.user_id == user_id) p.cards)
  chosen ← or_throw found card_not_found
  modify λ p. record p {
    cards = map (λ c. if c.user_id == user_id then record c { is_default = false } else c) p.cards;
  }
  let chosen' : SavedCard = record chosen { is_default = true }
  modify λ p. record p { cards = save chosen' p.cards }
  pure chosen'

-- removeCard
unfoldable pub remove_card : ℕ → ℕ → Action Payments (Unit {0})
remove_card user_id card_id =
    modify
      λ p. record p { cards = keep (λ c. not (c.id == card_id && c.user_id == user_id)) p.cards }

-- saveCardFromVerification, with the ids of the card and of a flag
unfoldable pub save_card_from_verification : ℕ → ℕ → ℕ → ℕ → Action Payments (Unit {0})
save_card_from_verification id flag_id user_id code p =
    elim (find_first (λ c. c.authorization_code == code) p.cards) [
      | some _ ↦ pure tt p
      | none ↦
          let added : SavedCard = record {
            id = id;
            user_id = user_id;
            authorization_code = code;
            is_default = length (keep (λ c. c.user_id == user_id) p.cards) == 0;
            created_at = clock p;
          } in
          let cards = save added p.cards in
          let recent =
            length
              (keep (λ c. c.user_id == user_id && ltb (clock p) (c.created_at + 1800000)) cards) in
          pure tt record p {
            cards = cards;
            flags =
                check_multiple_cards_added (record { now = clock p; id = flag_id }) user_id recent
                  p.flags;
          }
    ]

-- What the provider answers to a charge of a saved card: a result, or no answer.
pub data Answer : Type 0 where
  accepted refused : ℕ → Answer
  unreachable : Answer

-- chargeWithRetry, with the attempts that are left and the number of the next one; the answer to each
-- attempt is a function of its number.
unfoldable pub charge_with_retry : (ℕ → Answer) → ℕ → ℕ → Answer
charge_with_retry answers zero attempt = unreachable
charge_with_retry answers (suc left) attempt = elim (answers attempt) [
  | accepted g ↦ accepted g
  | refused g ↦ refused g
  | unreachable ↦ charge_with_retry answers left (suc attempt)
]

abbrev pub answered : Answer → Payment → Payment
answered (accepted g) r = record r { status = success; gateway_reference = some g }
answered (refused g) r = record r { status = failed; gateway_reference = some g }
answered unreachable r = record r { status = failed }

-- The failed card payments of a user in the last half hour
abbrev pub recent_failures : ℕ → ℕ → List Payment → ℕ
recent_failures now user_id records = length (
    keep
      (λ r.
        r.user_id == user_id
        && is_card r.method
        && is_failed r.status
        && ltb now (r.created_at + 1800000))
      records)

-- The check after a charge that failed
abbrev pub flag_failure : ℕ → Payment → Payments → Payments
flag_failure flag_id r p =
    if is_failed r.status
    then record p {
      flags =
          check_payment_failure_pattern (record { now = clock p; id = flag_id }) r.user_id
            (recent_failures (clock p) r.user_id p.records) p.flags;
    }
    else p

-- A payment that is taken for made where no provider is configured
abbrev pub simulated_payment_of : Fresh → ℕ → ℕ → PaymentMethod → ℕ → ℕ → Payment
simulated_payment_of fresh ride_id user_id method amount now =
    record (new_payment fresh (some ride_id) user_id method amount now) {
      status = success;
      simulated = true;
      gateway_reference = some fresh.gateway_reference;
    }

-- chargeSavedCard
unfoldable pub charge_saved_card : Bool → (ℕ → Answer) → Fresh → ℕ → ℕ → ℕ → Action Payments Payment
charge_saved_card false answers fresh ride_id user_id amount = do
  now ← gets clock
  let made = simulated_payment_of fresh ride_id user_id card amount now
  store made
  pure made
charge_saved_card true answers fresh ride_id user_id amount = do
  found ← gets (λ p. default_card user_id p.cards)
  or_throw found no_saved_card
  now ← gets clock
  let started = new_payment fresh (some ride_id) user_id card amount now
  store started
  let saved = answered (charge_with_retry answers 3 1) started
  store saved
  modify (flag_failure fresh.flag_id saved)
  pure saved

-- initBankTransfer; the provider may refuse to start it.
unfoldable pub init_bank_transfer : Bool → Bool → Fresh → ℕ → ℕ → ℕ → Action Payments Payment
init_bank_transfer false starts fresh ride_id user_id amount = do
  now ← gets clock
  let made = simulated_payment_of fresh ride_id user_id bank_transfer amount now
  store made
  pure made
init_bank_transfer true starts fresh ride_id user_id amount = do
  now ← gets clock
  let started = new_payment fresh (some ride_id) user_id bank_transfer amount now
  store started
  throw_if (not starts) gateway_unreachable
  pure started
