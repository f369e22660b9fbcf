-- ===== src/Withdrawals/Steps.antt =====
-- Who may start and confirm a withdrawal, and the moves of a request's status.
use ryda.Base.{
  ℕ, ◌+◌, ◌==◌, ◌≡◌, ◌≢◌, Bool, true, ℤ, ◌≤ℤ◌, Option, some, is_some, arith, find_first, after,
  result, Result, ok, err, Option-cases, inl, inr, ◌>>=◌, ◌>>◌,
}
use ryda.Settings.{Settings}
use ryda.Users.{user_keyed}
use ryda.Wallets.{wallet_of, get_by_user_id}
use ryda.Fraud.{critical_risk, assess}
use ryda.Withdrawals.{
  Context, initiate_withdrawal, screen_risk, check_confirmable, check_code, pay_out,
  confirm_withdrawal, handle_transfer_webhook, owned_account, request_ttl,
}
use ryda.Withdrawals.Entities.{
  pending, processing, Withdrawal, withdrawal_keyed, Payouts, account_keyed,
}
use ryda.Withdrawals.Funds.{Confirmable, check_confirmable_lem, check_code_frame}

-- Starting a withdrawal never moves money.
pub initiate_withdrawal-bank :
    (c : Context) (user_id account : ℕ) (amount : ℤ) (p : Payouts)
    → (after (initiate_withdrawal c user_id account amount) p).bank ≡ p.bank
unfolding initiate_withdrawal screen_risk get_by_user_id
initiate_withdrawal-bank c user_id account amount p = ground arith

-- A withdrawal is started only for a verified phone, at least the minimum, a balance that covers it,
-- a bank account of the same user, and a risk below CRITICAL; then it is pending for ten minutes.
pub initiate_withdrawal_ok :
    (c : Context) (user_id account : ℕ) (amount : ℤ) (p : Payouts) {w : Withdrawal}
    → result (initiate_withdrawal c user_id account amount) p ≡ ok w
    → (w.status ≡ pending)
      × (w.user_id ≡ user_id)
      × (w.amount ≡ amount)
      × (w.expires_at ≡ some (c.fresh.now + request_ttl))
      × (c.min_amount ≤ℤ amount)
      × ((assess c.points c.fresh.now user_id p.flags).1 ≢ critical_risk)
      × (is_some (owned_account user_id account p.accounts) ≡ true)
      × (is_some (wallet_of user_id p.bank.wallets) ≡ true)
unfolding initiate_withdrawal screen_risk get_by_user_id
initiate_withdrawal_ok c user_id account amount p h = ground arith

finish_unverified :
    (s : Settings ℤ) (now : ℕ) (transfer : Option ℕ) (user_id otp_code : ℕ) (p : Payouts)
    (checked : Result Withdrawal × Payouts)
    → Confirmable user_id p checked
    → result (check_code now user_id otp_code) p ≢ ok tt
    → (after
        ((λ _. checked) >>= λ w. check_code now user_id otp_code >> pay_out s transfer user_id w)
        p).bank
      ≡ p.bank
finish_unverified s now transfer user_id otp_code p (err e, p') h bad = h.0
finish_unverified s now transfer user_id otp_code p (ok w, p') h bad =
    ground (arith, check_code_frame now user_id otp_code p')

-- Without the right code for the user's phone, confirming a withdrawal moves no money.
pub confirm_needs_code :
    (s : Settings ℤ) (now : ℕ) (transfer : Option ℕ) (user_id id otp_code : ℕ) (p : Payouts)
    → result (check_code now user_id otp_code) p ≢ ok tt
    → (after (confirm_withdrawal s now transfer user_id id otp_code) p).bank ≡ p.bank
unfolding confirm_withdrawal
confirm_needs_code s now transfer user_id id otp_code p bad =
    finish_unverified s now transfer user_id otp_code p (check_confirmable now user_id id p)
      (check_confirmable_lem now user_id id p) bad

-- An answer of the provider for a request that is not in flight, or for none, changes nothing.
pub webhook_ignored :
    (s : Settings ℤ) (reference : ℕ) (succeeded : Bool) (p : Payouts)
    → ((w : Withdrawal)
        → find_first (λ w. w.reference == reference) p.requests ≡ some w
        → w.status ≢ processing)
    → handle_transfer_webhook s reference succeeded p ≡ (ok tt, p)
unfolding handle_transfer_webhook
webhook_ignored s reference succeeded p h =
    elim (Option-cases (find_first (λ w. w.reference == reference) p.requests)) [
      | inl unknown ↦ ground arith
      | inr (w, e) ↦ ground (arith, h w e)
    ]
