-- ===== src/Transfers/Requests.antt =====
-- What starting a transfer requires.
use ryda.Base.{
  ℕ, ◌+◌, ◌≤◌, ◌<◌, ◌≡◌, ◌≢◌, ◌+ℤ◌, ◌≤ℤ◌, pos, some, is_some, arith, after, result, ok, lookup,
  true,
}
use ryda.Settings.{
  get_number, wallet_transfer_min, wallet_transfer_max_per_transaction, wallet_transfer_max_daily,
  wallet_transfer_fee,
}
use ryda.Users.{User, user_keyed}
use ryda.Wallets.{wallet_of, get_by_user_id}
use ryda.Wallets.Entities.{Wallet}
use ryda.Transfers.{
  Context, Order, check_sender, initiate, check_limits, pending_of, request_ttl,
  sum_todays_sent_transfers,
}
use ryda.Transfers.Entities.{pending, TransferRequest, request_keyed, Transfers}

-- Starting a transfer never moves money.
pub initiate-bank :
    (c : Context) (sender_id : ℕ) (order : Order) (t : Transfers)
    → (after (initiate c sender_id order) t).bank ≡ t.bank
unfolding initiate check_limits get_by_user_id
initiate-bank c sender_id order t = ground arith

-- The request that a started transfer leaves is pending for ten minutes, has the fee of the moment,
-- and meets both limits on a single amount; its sender is not its recipient.
pub initiate_ok :
    (c : Context) (sender_id : ℕ) (order : Order) (t : Transfers) {r : TransferRequest}
    → result (initiate c sender_id order) t ≡ ok r
    → (r.status ≡ pending)
      × (r.sender_id ≡ sender_id)
      × (r.recipient_id ≢ sender_id)
      × (r.amount ≡ order.amount)
      × (r.fee ≡ get_number c.settings wallet_transfer_fee (pos 0))
      × (r.expires_at ≡ c.fresh.now + request_ttl)
      × (get_number c.settings wallet_transfer_min (pos 10000) ≤ℤ order.amount)
      × (order.amount ≤ℤ get_number c.settings wallet_transfer_max_per_transaction (pos 50000000))
unfolding initiate check_limits get_by_user_id
initiate_ok c sender_id order t h = ground arith

-- A started transfer fits the daily limit, with what was sent today, and its sender's balance, fee
-- included.
pub initiate_ok-covered :
    (c : Context) (sender_id : ℕ) (order : Order) (t : Transfers) {r : TransferRequest} {w : Wallet}
    → result (initiate c sender_id order) t ≡ ok r
    → wallet_of sender_id t.bank.wallets ≡ some w
    → (sum_todays_sent_transfers c.start_of_day w.id t.bank +ℤ order.amount
        ≤ℤ get_number c.settings wallet_transfer_max_daily (pos 100000000))
      × (order.amount +ℤ r.fee ≤ℤ w.balance)
unfolding initiate check_limits get_by_user_id
initiate_ok-covered c sender_id order t h e = ground arith

-- While the first pending request of a sender is one that expired unswept, the guard against a second
-- request lets its sender pass, although another request of theirs is pending and not over.
stale_hides_live :
    (now sender_id : ℕ) (t : Transfers) {u : User} {stale live : TransferRequest}
    → lookup sender_id t.users ≡ some u
    → is_some u.phone ≡ true
    → u.is_phone_verified ≡ true
    → pending_of sender_id t.requests ≡ some stale
    → stale.expires_at ≤ now
    → lookup live.id t.requests ≡ some live
    → live.sender_id ≡ sender_id
    → live.status ≡ pending
    → now < live.expires_at
    → check_sender now sender_id t ≡ (ok u, t)
unfolding check_sender
stale_hides_live now sender_id t eu ph v e old el own p alive = ground arith
