-- ===== src/SplitFare/Payments.antt =====
-- What paying a share does.
use ryda.Base.{
  ℕ, ◌==◌, ◌≡◌, refl, ℤ, pos, some, true, false, arith, int_laws, after, result, ok, err, Result,
  find_first-lookup, find_first-save, find_first-holds, Distinct, Option-cases, inl, inr, ◌>>=◌,
  ◌>>◌, already_paid, ◌&&◌,
}
use ryda.Settings.{Settings}
use ryda.Wallets.{wallet_of, get_by_user_id, debit}
use ryda.Wallets.Entities.{Wallet, wallet_keyed, split_fare_received, split_fare_payment}
use ryda.Wallets.Balances.{credit_succeeds, debit_keeps}
use ryda.Wallets.Conservation.{funds, credit-Moves, debit-Moves}
use ryda.SplitFare.{settle_share, mark_paid, check_share, pay_share, request_of, participant_of}
use ryda.SplitFare.Entities.{
  SplitRequest, request_keyed, completed, Participant, participant_keyed, Splits,
}

-- The payment of a share, after both wallets were read.
pub settle_share-funds :
    (s : Settings ℤ) (user_id : ℕ) (request : SplitRequest) (amount : ℕ) (d : Splits)
    → Distinct d.bank.wallets
    → funds (after (settle_share s user_id request amount) d).bank ≡ funds d.bank
unfolding settle_share get_by_user_id
settle_share-funds s user_id request amount d distinct =
    elim (Option-cases (wallet_of user_id d.bank.wallets)) [
      | inl missing ↦ ground arith
      | inr (own, eo) ↦ elim (Option-cases (wallet_of request.initiator_id d.bank.wallets)) [
        | inl missing ↦ ground arith
        | inr (initiator, ei) ↦
            let b' =
              after (debit own.id (pos amount) split_fare_payment (some request.id)) d.bank in
            grind (
              int_laws,
              debit-Moves own.id (pos amount) split_fare_payment (some request.id) d.bank,
              credit-Moves s initiator.id (pos amount) split_fare_received (some request.id) b',
              find_first-lookup (λ (w : Wallet). w.user_id == request.initiator_id) d.bank.wallets
                  distinct ei,
              debit_keeps own.id initiator.id (pos amount) split_fare_payment (some request.id)
                  d.bank,
              λ (w : Wallet).
                  credit_succeeds s initiator.id (pos amount) split_fare_received (some request.id)
                    b' {w = w},
            )
      ]
    ]

-- What the guards hand over: the rows of the split, with nothing written.
abbrev pub Due : ℕ → ℕ → Splits → Result (SplitRequest × Participant) × Splits → Type 0
Due ride_id user_id d (ok (r, p), d') =
    (d' ≡ d)
    × (request_of ride_id d.requests ≡ some r)
    × (participant_of r.id user_id d.participants ≡ some p)
    × (p.paid ≡ false)
Due ride_id user_id d (err _, d') = d' ≡ d

check_share-Due :
    (ride_id user_id : ℕ) (d : Splits) → Due ride_id user_id d (check_share ride_id user_id d)
unfolding check_share
check_share-Due ride_id user_id d = elim (Option-cases (request_of ride_id d.requests)) [
  | inl missing ↦ ground arith
  | inr (r, e) ↦ ground arith
]

mark_paid-bank :
    (user_id : ℕ) (r : SplitRequest) (p : Participant) (d : Splits)
    → (after (mark_paid user_id r p) d).bank ≡ d.bank
unfolding mark_paid
mark_paid-bank user_id r p d = ground arith

finish_funds :
    (s : Settings ℤ) (ride_id user_id : ℕ) (d : Splits)
    (due : Result (SplitRequest × Participant) × Splits)
    → Distinct d.bank.wallets
    → Due ride_id user_id d due
    → funds
        (after
          ((λ _. due) >>= λ q.
            settle_share s user_id q.0 q.1.amount_owed >> mark_paid user_id q.0 q.1)
          d).bank
      ≡ funds d.bank
finish_funds s ride_id user_id d (err _, d') distinct h = rw h
finish_funds s ride_id user_id d (ok (r, p), d') distinct h =
    let d'' : Splits = after (settle_share s user_id r p.amount_owed) d' in
    grind (
      arith,
      settle_share-funds s user_id r p.amount_owed d distinct,
      mark_paid-bank user_id r p d'',
    )

-- Paying a share keeps the sum of all balances however it ends, although its debit and its credit are
-- two transactions: once the debit goes through, the credit cannot fail. No two wallets have the same
-- id.
pub pay_share-funds :
    (s : Settings ℤ) (ride_id user_id : ℕ) (d : Splits)
    → Distinct d.bank.wallets
    → funds (after (pay_share s ride_id user_id) d).bank ≡ funds d.bank
unfolding pay_share
pay_share-funds s ride_id user_id d distinct =
    finish_funds s ride_id user_id d (check_share ride_id user_id d) distinct
      (check_share-Due ride_id user_id d)

settle_share_frame :
    (s : Settings ℤ) (user_id : ℕ) (request : SplitRequest) (amount : ℕ) (d : Splits)
    → let d' = after (settle_share s user_id request amount) d in
      (d'.requests ≡ d.requests) × (d'.participants ≡ d.participants)
unfolding settle_share get_by_user_id
settle_share_frame s user_id request amount d = ground arith

mark_paid_refuses :
    (ride_id user_id : ℕ) (d : Splits) {r : SplitRequest} {p : Participant}
    → Distinct d.requests
    → Distinct d.participants
    → request_of ride_id d.requests ≡ some r
    → participant_of r.id user_id d.participants ≡ some p
    → result (check_share ride_id user_id) (after (mark_paid user_id r p) d) ≡ err already_paid
unfolding mark_paid check_share
mark_paid_refuses ride_id user_id d {r} {p} dr dp er ep =
    let of_ride = λ (q : SplitRequest). q.ride_id == ride_id in
    let of_user = λ (q : Participant). q.split_request_id == r.id && q.user_id == user_id in
    let paid : Participant = record p { paid = true } in
    let done : SplitRequest = record r { status = completed } in
    ground (
      arith,
      find_first-save of_ride d.requests done er (find_first-lookup of_ride d.requests dr er) refl,
      find_first-holds of_ride d.requests er,
      find_first-save of_user d.participants paid ep
          (find_first-lookup of_user d.participants dp ep) refl,
      find_first-holds of_user d.participants ep,
    )

-- The state that the guards of a second payment see, after a first one that went through.
finish_refused :
    (s : Settings ℤ) (ride_id user_id : ℕ) (d : Splits)
    (due : Result (SplitRequest × Participant) × Splits) {q : Participant}
    → Distinct d.requests
    → Distinct d.participants
    → Due ride_id user_id d due
    → let paid =
        ((λ _. due) >>= λ q.
        settle_share s user_id q.0 q.1.amount_owed >> mark_paid user_id q.0 q.1)
          d in
      paid.0 ≡ ok q → result (check_share ride_id user_id) paid.1 ≡ err already_paid
finish_refused s ride_id user_id d (err _, d') dr dp h e = absurd (ground arith)
finish_refused s ride_id user_id d (ok (r, p), d') dr dp h e =
    let d'' : Splits = after (settle_share s user_id r p.amount_owed) d' in
    grind (
      arith,
      settle_share_frame s user_id r p.amount_owed d',
      mark_paid_refuses ride_id user_id d'' {r = r} {p = p},
    )

-- A share is paid once: when a payment goes through, the same participant's next one reports that the
-- share is paid. No two requests and no two participants have the same id.
pay_share_once :
    (s s' : Settings ℤ) (ride_id user_id : ℕ) (d : Splits) {p : Participant}
    → Distinct d.requests
    → Distinct d.participants
    → result (pay_share s ride_id user_id) d ≡ ok p
    → result (pay_share s' ride_id user_id) (after (pay_share s ride_id user_id) d)
      ≡ err already_paid
unfolding pay_share
pay_share_once s s' ride_id user_id d dr dp h = ground (
  arith,
  finish_refused s ride_id user_id d (check_share ride_id user_id d) dr dp
      (check_share-Due ride_id user_id d) h,
)
