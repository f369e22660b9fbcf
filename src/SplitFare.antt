-- ===== src/SplitFare.antt =====
-- src/split-fare/split-fare.service.ts: splitting the fare of a ride between accounts, paying a share, and
-- the expiry of a split. The clock and the generated ids are arguments.
pub mod Entities
pub mod Shares
pub mod Payments
mod Tests
use ryda.Base.{
  ℕ, suc, ◌+◌, ◌*◌, ◌/◌, ◌==◌, ltb, leb, Bool, true, false, not, ◌&&◌, ◌||◌, is_some, Option, none,
  some, List, [], ◌∷◌, ◌++◌, map, if◌then◌else◌, pos, length, keep, some_of, every, Action, Result,
  ok, err, ◌>>=◌, ◌>>◌, pure, throw, gets, or_throw, throw_if, modify, lookup, save, find_first,
  ride_not_found, not_the_booker, already_split, no_participants, amounts_mismatch,
  amounts_exceed_total, no_account_for_phone, split_with_self, split_not_found, no_split_access,
  not_a_participant, already_paid, split_expired,
}
use ryda.Settings.{Settings, get_number, split_fare_expiry_minutes}
use ryda.Users.{User, user_keyed, find_by_phone}
use ryda.Wallets.{get_by_user_id, credit, debit}
use ryda.Wallets.Entities.{split_fare_payment, split_fare_received}
use Entities.{
  Ride, ride_keyed, Status, pending, completed, expired, is_pending, is_expired, SplitRequest,
  request_keyed, Participant, participant_keyed, Splits, on_bank,
}
use ryda.Settings.{SettingKey}
use ryda.Base.{ℤ}

-- `Math.round((totalFare / headcount) * 100) / 100`, in kobo
unfoldable pub even_share : ℕ → ℕ → ℕ
even_share total headcount = (2 * total + headcount) / (2 * headcount)

-- `input.amounts ?? ...`
unfoldable pub shares : ℕ → List ℕ → Option (List ℕ) → List ℕ
shares total phones (some amounts) = amounts
shares total phones none = map (λ _. even_share total (length phones + 1)) phones

abbrev pub sum : List ℕ → ℕ
sum [] = 0
sum (x ∷ xs) = x + sum xs

-- The account of one phone number.
abbrev pub resolve_one : ℕ → ℕ → Action Splits User
resolve_one initiator_id phone = do
  user ← or_throw (← gets (λ s. find_by_phone phone s.users)) no_account_for_phone
  throw_if (user.id == initiator_id) split_with_self
  pure user

abbrev pub resolve : ℕ → List ℕ → Action Splits (List User)
resolve initiator_id [] = pure []
resolve initiator_id (phone ∷ phones) = do
  user ← resolve_one initiator_id phone
  users ← resolve initiator_id phones
  pure (user ∷ users)

-- The rows of the participants, with ids that count on from the first.
abbrev pub rows_of : ℕ → ℕ → List User → List ℕ → List Participant
rows_of id request_id (user ∷ users) (amount ∷ amounts) =
    record {
      id = id;
      split_request_id = request_id;
      user_id = user.id;
      amount_owed = amount;
      paid = false;
    }
    ∷ rows_of (suc id) request_id users amounts
rows_of id request_id _ _ = []

abbrev pub request_of : ℕ → List SplitRequest → Option SplitRequest
request_of ride_id = find_first (λ r. r.ride_id == ride_id)

-- `request.participants`
abbrev pub participants_of : ℕ → List Participant → List Participant
participants_of request_id = keep (λ p. p.split_request_id == request_id)

-- getByRide
unfoldable pub get_by_ride : ℕ → ℕ → Action Splits SplitRequest
get_by_ride ride_id requester_id = do
  request ← or_throw (← gets (λ s. request_of ride_id s.requests)) split_not_found
  is_participant ←
      gets
        (λ s. some_of (λ p. p.user_id == requester_id) (participants_of request.id s.participants))
  throw_if (not (request.initiator_id == requester_id) && not is_participant) no_split_access
  pure request

-- The checks of `create`, with the amounts and the accounts that it goes on with.
unfoldable pub check_split : ℕ → ℕ → List ℕ → Option (List ℕ) → Action Splits (Ride × List User)
check_split ride_id initiator_id phones amounts? = do
  ride ← or_throw (← gets (λ s. lookup ride_id s.rides)) ride_not_found
  throw_if (not (ride.passenger_id == initiator_id)) not_the_booker
  existing ← gets (λ s. request_of ride_id s.requests)
  throw_if (is_some existing) already_split
  throw_if (length phones == 0) no_participants
  let amounts = shares ride.total_fare phones amounts?
  throw_if (not (length amounts == length phones)) amounts_mismatch
  throw_if (ltb ride.total_fare (sum amounts)) amounts_exceed_total
  users ← resolve initiator_id phones
  pure (ride, users)

-- The clock and the ids that the database generates for the rows.
pub record Fresh : Type 0 where
  pub now : ℕ
  pub request_id : ℕ
  pub participant_id : ℕ

unfoldable pub create :
    Settings ℕ → Fresh → ℕ → ℕ → List ℕ → Option (List ℕ) → Action Splits SplitRequest
create settings fresh ride_id initiator_id phones amounts? = do
  checked ← check_split ride_id initiator_id phones amounts?
  let total = checked.0.total_fare
  let minutes = get_number settings split_fare_expiry_minutes (48 * 60)
  let request : SplitRequest = record {
    id = fresh.request_id;
    ride_id = ride_id;
    initiator_id = initiator_id;
    total_amount = total;
    status = pending;
    expires_at = some (fresh.now + minutes * 60 * 1000);
  }
  let rows = rows_of fresh.participant_id request.id checked.1 (shares total phones amounts?)
  modify λ s. record s { requests = save request s.requests; participants = s.participants ++ rows }
  get_by_ride ride_id initiator_id

abbrev pub participant_of : ℕ → ℕ → List Participant → Option Participant
participant_of request_id user_id =
    find_first (λ p. p.split_request_id == request_id && p.user_id == user_id)

-- The debit of the participant and the credit of the initiator, which are two transactions.
unfoldable pub settle_share : Settings ℤ → ℕ → SplitRequest → ℕ → Action Splits (Unit {0})
settle_share settings user_id request amount = do
  own ← on_bank (get_by_user_id user_id)
  initiator ← on_bank (get_by_user_id request.initiator_id)
  on_bank (debit own.id (pos amount) split_fare_payment (some request.id))
  on_bank (credit settings initiator.id (pos amount) split_fare_received (some request.id))
  pure tt

-- The bookkeeping after a share is paid.
unfoldable pub mark_paid : ℕ → SplitRequest → Participant → Action Splits Participant
mark_paid user_id request participant = do
  let paid : Participant = record participant { paid = true }
  others ← gets (λ s. participants_of request.id s.participants)
  modify (λ s. record s { participants = save paid s.participants })
  (if every (λ p. p.user_id == user_id || p.paid) others
      then modify
          (λ s. record s { requests = save (record request { status = completed }) s.requests })
      else pure tt)
  pure paid

-- The guards of payShare.
unfoldable pub check_share : ℕ → ℕ → Action Splits (SplitRequest × Participant)
check_share ride_id user_id = do
  request ← or_throw (← gets (λ s. request_of ride_id s.requests)) split_not_found
  participant ←
      or_throw (← gets (λ s. participant_of request.id user_id s.participants)) not_a_participant
  throw_if participant.paid already_paid
  throw_if (is_expired request.status) split_expired
  pure (request, participant)

unfoldable pub pay_share : Settings ℤ → ℕ → ℕ → Action Splits Participant
pay_share settings ride_id user_id = do
  due ← check_share ride_id user_id
  settle_share settings user_id due.0 due.1.amount_owed
  mark_paid user_id due.0 due.1

-- `r.status` is PENDING and `r.expiresAt && r.expiresAt < new Date()`
abbrev pub is_stale : ℕ → SplitRequest → Bool
is_stale now r = is_pending r.status && elim r.expires_at [ none ↦ false | some e ↦ ltb e now ]

abbrev pub expire_one : ℕ → SplitRequest → SplitRequest
expire_one now r = if is_stale now r then record r { status = expired } else r

-- expireStaleRequests, with an event for each request that expired
unfoldable pub expire_stale_requests : ℕ → Action Splits (Unit {0})
expire_stale_requests now = modify λ s. record s {
  requests = map (expire_one now) s.requests;
  events =
      s.events
      ++ map (λ r. record { initiator_id = r.initiator_id; ride_id = r.ride_id })
          (keep (is_stale now) s.requests);
}
