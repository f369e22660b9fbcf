-- ===== src/Withdrawals/Funds.antt =====
-- Withdrawals conserve money: what has left the wallets stands in the requests that are in flight
-- or completed.
use ryda.Base.{
  ℕ, ◌==◌, ◌≡◌, refl, Bool, true, false, ℤ, pos, ◌+ℤ◌, Option, none, some, List, [], ◌∷◌, map,
  arith, int_laws, lookup, lookup-key_of, lookup-save_self, save, total, total-save, Distinct,
  find_first, find_first-lookup, ◌>>=◌, ◌>>◌, after, Result, ok, err, Option-cases, inl, inr,
}
use ryda.Settings.{Settings}
use ryda.Wallets.{debit, get_by_user_id}
use ryda.Wallets.Entities.{Wallet, wallet_keyed, withdrawal}
use ryda.Wallets.Conservation.{funds, credit-Moves, debit-Moves}
use ryda.Withdrawals.{
  check_confirmable, check_code, pay_out, charge, start_transfer, confirm_withdrawal, settle,
  handle_transfer_webhook, expire_one, expire_stale_requests,
}
use ryda.Withdrawals.Entities.{
  pending, processing, completed, failed, expired, Withdrawal, withdrawal_keyed, Payouts,
}

-- What a request holds: its amount while it is in flight, and for good once it is completed.
abbrev pub stake : Withdrawal → ℤ
stake w = elim w.status [ processing ↦ w.amount | completed ↦ w.amount | _ ↦ pos 0 ]

-- All balances and all that the requests hold.
abbrev pub assets : Payouts → ℤ
assets p = funds p.bank +ℤ total stake p.requests

save-stake :
    (w w' : Withdrawal) (requests : List Withdrawal)
    → lookup w.id requests ≡ some w
    → w'.id ≡ w.id
    → total stake (save w' requests) +ℤ stake w ≡ total stake requests +ℤ stake w'
save-stake w w' requests e k = total-save stake w' w requests (rw k e)

-- The provider took the transfer, or threw and the debit is taken back: nothing is lost either way.
start_transfer-assets :
    (s : Settings ℤ) (transfer : Option ℕ) (wallet : Wallet) (w : Withdrawal) (p : Payouts)
    → lookup w.id p.requests ≡ some w
    → w.status ≡ processing
    → assets (after (start_transfer s transfer wallet w) p) ≡ assets p
unfolding start_transfer
start_transfer-assets s (some code) wallet w p e h =
    grind (int_laws, save-stake w (record w { transfer_code = some code }) p.requests e refl)
start_transfer-assets s none wallet w p e h = grind (
  int_laws,
  credit-Moves s wallet.id w.amount withdrawal (some w.reference) p.bank,
  save-stake w (record w { status = failed }) p.requests e refl,
)

charge-assets :
    (s : Settings ℤ) (transfer : Option ℕ) (wallet : Wallet) (w : Withdrawal) (p : Payouts)
    → lookup w.id p.requests ≡ some w
    → w.status ≡ pending
    → assets (after (charge s transfer wallet w) p) ≡ assets p
unfolding charge
charge-assets s transfer wallet w p e h =
    let w' : Withdrawal = record w { status = processing } in
    let p' : Payouts = record p {
      bank = after (debit wallet.id w.amount withdrawal (some w.reference)) p.bank;
      requests = save w' p.requests;
    } in
    grind (
      int_laws,
      debit-Moves wallet.id w.amount withdrawal (some w.reference) p.bank,
      save-stake w w' p.requests e refl,
      start_transfer-assets s transfer wallet w' p' (lookup-save_self w' p.requests) refl,
    )

pay_out-assets :
    (s : Settings ℤ) (transfer : Option ℕ) (user_id : ℕ) (w : Withdrawal) (p : Payouts)
    → lookup w.id p.requests ≡ some w
    → w.status ≡ pending
    → assets (after (pay_out s transfer user_id w) p) ≡ assets p
unfolding pay_out get_by_user_id
pay_out-assets s transfer user_id w p e h =
    grind (arith, λ (wallet : Wallet). charge-assets s transfer wallet w p e h)

-- What `check_confirmable` hands over: the request itself, with nothing written. Where it throws, it
-- writes at most that a pending request has expired.
abbrev pub Confirmable : ℕ → Payouts → Result Withdrawal × Payouts → Type 0
Confirmable user_id p (ok w, p') =
    (p' ≡ p) × (lookup w.id p.requests ≡ some w) × (w.status ≡ pending) × (w.user_id ≡ user_id)
Confirmable user_id p (err _, p') = (p'.bank ≡ p.bank) × (assets p' ≡ assets p)

pub check_confirmable_lem :
    (now user_id id : ℕ) (p : Payouts) → Confirmable user_id p (check_confirmable now user_id id p)
unfolding check_confirmable
check_confirmable_lem now user_id id p = elim (Option-cases (lookup id p.requests)) [
  | inl missing ↦ ground arith
  | inr (w, e) ↦ grind (
    int_laws,
    lookup-key_of id p.requests e,
    save-stake w (record w { status = expired }) p.requests,
  )
]

-- Checking the code touches neither money nor requests.
pub check_code_frame :
    (now user_id otp_code : ℕ) (p : Payouts)
    → let p' = after (check_code now user_id otp_code) p in
      (p'.bank ≡ p.bank) × (p'.requests ≡ p.requests) × (p'.accounts ≡ p.accounts)
unfolding check_code
check_code_frame now user_id otp_code p = ground arith

finish_confirm :
    (s : Settings ℤ) (now : ℕ) (transfer : Option ℕ) (user_id otp_code : ℕ) (p : Payouts)
    (checked : Result Withdrawal × Payouts)
    → Confirmable user_id p checked
    → assets (
        after
          ((λ _. checked) >>= λ w. check_code now user_id otp_code >> pay_out s transfer user_id w)
          p)
      ≡ assets p
finish_confirm s now transfer user_id otp_code p (err e, p') h = h.1
finish_confirm s now transfer user_id otp_code p (ok w, p') h =
    let p'' : Payouts = after (check_code now user_id otp_code) p' in
    grind (arith, check_code_frame now user_id otp_code p', pay_out-assets s transfer user_id w p'')

-- Confirming a withdrawal keeps the sum of all balances and all requests in flight or completed,
-- however it ends: refused, charged, or charged and refunded.
pub confirm_withdrawal-assets :
    (s : Settings ℤ) (now : ℕ) (transfer : Option ℕ) (user_id id otp_code : ℕ) (p : Payouts)
    → assets (after (confirm_withdrawal s now transfer user_id id otp_code) p) ≡ assets p
unfolding confirm_withdrawal
confirm_withdrawal-assets s now transfer user_id id otp_code p =
    finish_confirm s now transfer user_id otp_code p (check_confirmable now user_id id p)
      (check_confirmable_lem now user_id id p)

settle-assets :
    (s : Settings ℤ) (succeeded : Bool) (w : Withdrawal) (p : Payouts)
    → lookup w.id p.requests ≡ some w
    → w.status ≡ processing
    → assets (after (settle s succeeded w) p) ≡ assets p
unfolding settle get_by_user_id
settle-assets s true w p e h =
    grind (int_laws, save-stake w (record w { status = completed }) p.requests e refl)
settle-assets s false w p e h = grind (
  int_laws,
  λ (wallet : Wallet). credit-Moves s wallet.id w.amount withdrawal (some w.reference) p.bank,
  save-stake w (record w { status = failed }) p.requests e refl,
)

-- The provider's answer, success or failure, keeps that sum too, where no two requests have the same
-- id.
pub webhook-assets :
    (s : Settings ℤ) (reference : ℕ) (succeeded : Bool) (p : Payouts)
    → Distinct p.requests
    → assets (after (handle_transfer_webhook s reference succeeded) p) ≡ assets p
unfolding handle_transfer_webhook
webhook-assets s reference succeeded p d =
    elim (Option-cases (find_first (λ w. w.reference == reference) p.requests)) [
      | inl unknown ↦ ground arith
      | inr (w, e) ↦ ground (
        arith,
        settle-assets s succeeded w p
            (find_first-lookup (λ w. w.reference == reference) p.requests d e),
      )
    ]

expire_stake : (now : ℕ) (w : Withdrawal) → stake (expire_one now w) ≡ stake w
expire_stake now w = ground arith

expire_total :
    (now : ℕ) (requests : List Withdrawal)
    → total stake (map (expire_one now) requests) ≡ total stake requests
expire_total now [] = refl
expire_total now (w ∷ requests) = rw (expire_stake now w, expire_total now requests)

-- Expiring stale requests keeps that sum.
pub expire_stale_requests-assets :
    (now : ℕ) (p : Payouts) → assets (after (expire_stale_requests now) p) ≡ assets p
unfolding expire_stale_requests
expire_stale_requests-assets now p = rw (expire_total now p.requests)
