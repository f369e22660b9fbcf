-- ===== src/Wallets.antt =====
-- src/wallets/wallets.service.ts with the entities of wallets/entities/: user wallets, their ledger of
-- transactions, and the methods that move money. Amounts are whole kobo; the texts that only
-- describe a transaction are left out, and an id is a number, since it is only compared.
pub mod Entities
pub mod Balances
pub mod Transfers
pub mod Conservation
pub mod History
pub mod Records
pub mod Accounts
mod Tests
use ryda.Base.{
  ℕ, ◌==◌, ◌&&◌, ◌||◌, min, max, Bool, true, false, Option, none, some, List, [], ◌∷◌, ◌++◌, ℤ, pos,
  ◌+ℤ◌, ◌-ℤ◌, ltb_ℤ, leb_ℤ, if◌then◌else◌, Action, ◌>>=◌, ◌>>◌, pure, gets, or_throw, transaction,
  throw_if, modify, lookup, save, find_first, amount_not_positive, wallet_not_found,
  balance_over_maximum, wallet_frozen, insufficient_balance, own_wallet, sender_frozen,
  recipient_frozen,
}
use ryda.Settings.{Settings, get_number, wallet_max_balance}
use Entities.{
  Direction, credit_direction, debit_direction, Category, topup, transfer_sent, transfer_received,
  is_topup, Wallet, wallet_keyed, WalletTransaction, WalletUpdated, Bank,
}

-- createForUser; the id is the one that the database generates.
unfoldable pub create_for_user : ℕ → ℕ → Action Bank Wallet
create_for_user id user_id = do
  let wallet : Wallet = record { id = id; user_id = user_id; balance = pos 0; is_frozen = false }
  modify (λ b. record b { wallets = save wallet b.wallets })
  pure wallet

abbrev pub wallet_of : ℕ → List Wallet → Option Wallet
wallet_of user_id = find_first (λ w. w.user_id == user_id)

-- getByUserId
unfoldable pub get_by_user_id : ℕ → Action Bank Wallet
get_by_user_id user_id b = or_throw (wallet_of user_id b.wallets) wallet_not_found b

-- `manager.findOne(Wallet, { where: { id } })`
abbrev find_wallet : ℕ → Action Bank (Option Wallet)
find_wallet id = gets (λ b. lookup id b.wallets)

-- `wallet.balance = ...; manager.save(wallet)`, and the row that is saved with it
abbrev pub post : Wallet → ℤ → Direction → Category → ℤ → Option ℕ → Action Bank Wallet
post wallet balance direction category amount reference b =
    let wallet' = record wallet { balance = balance } in
    let row : WalletTransaction = record {
      wallet_id = wallet.id;
      direction = direction;
      category = category;
      amount = amount;
      balance_after = balance;
      reference_id = reference;
      created_at = b.now;
    } in
    pure wallet'
      (record b { wallets = save wallet' b.wallets; transactions = b.transactions ++ row ∷ [] })

-- `this.events.emit('wallet.updated', ...)`
abbrev pub emit : Wallet → Direction → ℤ → Category → Action Bank (Unit {0})
emit wallet direction amount category = modify λ b. record b {
  events =
      b.events
      ++ record {
        wallet_id = wallet.id;
        user_id = wallet.user_id;
        direction = direction;
        amount = amount;
        category = category;
      }
        ∷ [];
}

-- 10_000_000 naira
abbrev default_max_balance : ℤ
default_max_balance = pos 1000000000

-- The limit is enforced on top-ups only.
unfoldable pub over_maximum : Settings ℤ → Category → ℤ → Bool
over_maximum settings category new_balance =
    is_topup category
    && ltb_ℤ (get_number settings wallet_max_balance default_max_balance) new_balance

unfoldable pub credit : Settings ℤ → ℕ → ℤ → Category → Option ℕ → Action Bank Wallet
credit settings wallet_id amount category reference = do
  throw_if (leb_ℤ amount (pos 0)) amount_not_positive
  w ← transaction (do
    wallet ← or_throw (← find_wallet wallet_id) wallet_not_found
    let new_balance = wallet.balance +ℤ amount
    throw_if (over_maximum settings category new_balance) balance_over_maximum
    post wallet new_balance credit_direction category amount reference)
  emit w credit_direction amount category
  pure w

unfoldable pub debit : ℕ → ℤ → Category → Option ℕ → Action Bank Wallet
debit wallet_id amount category reference = do
  throw_if (leb_ℤ amount (pos 0)) amount_not_positive
  w ← transaction (do
    wallet ← or_throw (← find_wallet wallet_id) wallet_not_found
    throw_if wallet.is_frozen wallet_frozen
    throw_if (ltb_ℤ wallet.balance amount) insufficient_balance
    post wallet (wallet.balance -ℤ amount) debit_direction category amount reference)
  emit w debit_direction amount category
  pure w

-- The body of the transaction in `transfer`, after both rows are locked.
unfoldable pub move_funds : Wallet → Wallet → ℤ → ℤ → Option ℕ → Action Bank (Wallet × Wallet)
move_funds sender recipient amount fee reference = do
  throw_if sender.is_frozen sender_frozen
  throw_if recipient.is_frozen recipient_frozen
  let total_debit = amount +ℤ fee
  throw_if (ltb_ℤ sender.balance total_debit) insufficient_balance
  sender' ←
      post sender (sender.balance -ℤ total_debit) debit_direction transfer_sent total_debit
        reference
  recipient' ←
      post recipient (recipient.balance +ℤ amount) credit_direction transfer_received amount
        reference
  pure (sender', recipient')

-- Both rows are locked in the order of their ids, then told apart as sender and recipient.
unfoldable pub lock_pair : ℕ → ℕ → Action Bank (Wallet × Wallet)
lock_pair sender_id recipient_id = do
  first? ← find_wallet (min sender_id recipient_id)
  second? ← find_wallet (max sender_id recipient_id)
  first ← or_throw first? wallet_not_found
  second ← or_throw second? wallet_not_found
  pure (if first.id == sender_id then (first, second) else (second, first))

-- The callback that `transfer` runs inside its transaction.
unfoldable pub transfer_locked : ℕ → ℕ → ℤ → ℤ → Option ℕ → Action Bank (Wallet × Wallet)
transfer_locked sender_id recipient_id amount fee reference = do
  locked ← lock_pair sender_id recipient_id
  move_funds locked.0 locked.1 amount fee reference

unfoldable pub transfer : ℕ → ℕ → ℤ → ℤ → Option ℕ → Action Bank (Wallet × Wallet)
transfer sender_id recipient_id amount fee reference = do
  throw_if (leb_ℤ amount (pos 0)) amount_not_positive
  throw_if (sender_id == recipient_id) own_wallet
  moved ← transaction (transfer_locked sender_id recipient_id amount fee reference)
  emit moved.0 debit_direction (amount +ℤ fee) transfer_sent
  emit moved.1 credit_direction amount transfer_received
  pure moved
