-- ===== src/Transfers/Confirm.antt =====
-- What confirming a transfer does, and that it does it once.
use ryda.Base.{
  ℕ, ◌≡◌, ◌≢◌, pos, ◌+ℤ◌, ◌-ℤ◌, none, some, arith, after, result, ok, err, Result, lookup,
  key-lookup, lookup-save_self, Option-cases, inl, inr, ◌>>=◌, ◌>>◌,
}
use ryda.Users.{user_keyed}
use ryda.Wallets.{get_by_user_id}
use ryda.Wallets.Entities.{Wallet}
use ryda.Wallets.Conservation.{funds, transfer-Moves}
use ryda.Fraud.{Fresh}
use ryda.Transfers.{check_confirmable, check_code, move, confirm}
use ryda.Transfers.Entities.{pending, completed, TransferRequest, request_keyed, Transfers}

-- What `check_confirmable` hands over: the request itself, with nothing written.
abbrev pub Confirmable : ℕ → ℕ → ℕ → Transfers → Result TransferRequest × Transfers → Type 0
Confirmable now sender_id id t (ok r, t') =
    (t' ≡ t)
    × (lookup id t.requests ≡ some r)
    × (r.id ≡ id)
    × (r.status ≡ pending)
    × (r.sender_id ≡ sender_id)
Confirmable now sender_id id t (err _, t') = t'.bank ≡ t.bank

pub check_confirmable_lem :
    (now sender_id id : ℕ) (t : Transfers)
    → Confirmable now sender_id id t (check_confirmable now sender_id id t)
unfolding check_confirmable
check_confirmable_lem now sender_id id t = elim (Option-cases (lookup id t.requests)) [
  | inl missing ↦ ground arith
  | inr (r, e) ↦ ground (arith, key-lookup id t.requests e)
]

check_code_frame :
    (now sender_id otp_code : ℕ) (t : Transfers)
    → let t' = after (check_code now sender_id otp_code) t in
      (t'.bank ≡ t.bank) × (t'.requests ≡ t.requests)
unfolding check_code
check_code_frame now sender_id otp_code t = ground arith

-- What a confirmed transfer leaves: all balances less the fee, and the request completed; or, where
-- it throws, every balance as it was.
abbrev pub Confirmed : TransferRequest → Transfers → Result Wallet × Transfers → Type 0
Confirmed r t (ok _, t') =
    (funds t'.bank ≡ funds t.bank +ℤ (pos 0 -ℤ r.fee))
    × (lookup r.id t'.requests ≡ some (record r { status = completed }))
Confirmed r t (err _, t') = t'.bank ≡ t.bank

move-Confirmed :
    (fresh : Fresh) (r : TransferRequest) (t : Transfers) → Confirmed r t (move fresh r t)
unfolding move get_by_user_id
move-Confirmed fresh r t = grind (
  arith,
  λ (v w : Wallet). transfer-Moves v.id w.id r.amount r.fee (some r.id) t.bank,
  lookup-save_self (record r { status = completed }) t.requests,
)

finish_Confirmed :
    (fresh : Fresh) (sender_id id otp_code : ℕ) (t : Transfers)
    (checked : Result TransferRequest × Transfers) {r : TransferRequest}
    → lookup id t.requests ≡ some r
    → Confirmable fresh.now sender_id id t checked
    → Confirmed r t
        (((λ _. checked) >>= λ q. check_code fresh.now sender_id otp_code >> move fresh q) t)
finish_Confirmed fresh sender_id id otp_code t (err e, t') el h = h
finish_Confirmed fresh sender_id id otp_code t (ok q, t') {r} el h =
    let t'' : Transfers = after (check_code fresh.now sender_id otp_code) t' in
    ground (arith, check_code_frame fresh.now sender_id otp_code t', move-Confirmed fresh q t'')

-- Confirming a transfer either throws and moves no money at all, or completes the request and takes
-- exactly its fee from the sum of all balances.
pub confirm-Confirmed :
    (fresh : Fresh) (sender_id id otp_code : ℕ) (t : Transfers) {r : TransferRequest}
    → lookup id t.requests ≡ some r
    → Confirmed r t (confirm fresh sender_id id otp_code t)
unfolding confirm
confirm-Confirmed fresh sender_id id otp_code t e =
    finish_Confirmed fresh sender_id id otp_code t (check_confirmable fresh.now sender_id id t) e
      (check_confirmable_lem fresh.now sender_id id t)

settled_refused :
    (fresh : Fresh) (sender_id id otp_code : ℕ) (t : Transfers) {r : TransferRequest}
    → lookup id t.requests ≡ some r
    → r.status ≢ pending
    → (after (confirm fresh sender_id id otp_code) t ≡ t)
unfolding confirm check_confirmable
settled_refused fresh sender_id id otp_code t e s = ground arith

completed_by :
    (r : TransferRequest) (t : Transfers) (x : Result Wallet × Transfers) {w : Wallet}
    → Confirmed r t x
    → x.0 ≡ ok w
    → lookup r.id x.1.requests ≡ some (record r { status = completed })
completed_by r t (ok _, t') h e = h.1
completed_by r t (err _, t') h e = absurd (ground arith)

unknown_refused :
    (fresh : Fresh) (sender_id id otp_code : ℕ) (t : Transfers) {w : Wallet}
    → lookup id t.requests ≡ none
    → result (confirm fresh sender_id id otp_code) t ≢ ok w
unfolding confirm check_confirmable
unknown_refused fresh sender_id id otp_code t e h = ground arith

-- A confirmed request moves money once: confirming it again, by anyone and with any code, changes
-- nothing.
pub confirm_once :
    (fresh fresh' : Fresh) (sender_id sender_id' id otp_code otp_code' : ℕ) (t : Transfers)
    {w : Wallet}
    → result (confirm fresh sender_id id otp_code) t ≡ ok w
    → let t' = after (confirm fresh sender_id id otp_code) t in
      after (confirm fresh' sender_id' id otp_code') t' ≡ t'
confirm_once fresh fresh' sender_id sender_id' id otp_code otp_code' t h =
    elim (Option-cases (lookup id t.requests)) [
      | inl missing ↦ absurd (unknown_refused fresh sender_id id otp_code t missing h)
      | inr (r, e) ↦
          settled_refused fresh' sender_id' id otp_code'
            (after (confirm fresh sender_id id otp_code) t)
            (rw (key-lookup id t.requests e) at (
              completed_by r t (confirm fresh sender_id id otp_code t)
                (confirm-Confirmed fresh sender_id id otp_code t e) h))
            (λ q. cc)
    ]
