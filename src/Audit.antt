-- ===== src/Audit.antt =====
-- src/reconciliation/ledger-audit.service.ts with entities/ledger-discrepancy.entity.ts: the scan of all
-- accounts of a type, the walk along one account's ledger, and the record of discrepancies. An
-- account is given to the scan by its id and balance, a ledger row by its account and
-- `balanceAfter`, in the order of creation; so the same code serves the three account types.
pub mod Chain
pub mod Scan
mod Tests
use ryda.Base.{
  ℕ, suc, ◌<◌, ltb, ◌==◌, Bool, true, false, ◌&&◌, not, Option, none, some, is_some, List, [], ◌∷◌,
  ◌++◌, ℤ, pos, ◌+ℤ◌, ◌-ℤ◌, distance, if◌then◌else◌, Action, ◌>>=◌, ◌>>◌, pure, gets, or_throw,
  throw_if, modify, lookup, save, find_first, keep, Keyed, leb, Result, account_not_found,
  discrepancy_not_found, already_resolved,
}
use ryda.Wallets.Entities.{
  Wallet, wallet_keyed, WalletTransaction, Direction, credit_direction, debit_direction, Bank,
}

-- LedgerAccountType
pub data AccountType : Type 0 where
  wallet fleet_wallet corporate_account : AccountType

abbrev pub same_type : AccountType → AccountType → Bool
same_type wallet wallet = true
same_type fleet_wallet fleet_wallet = true
same_type corporate_account corporate_account = true
same_type _ _ = false

-- LedgerDiscrepancyStatus
pub data Status : Type 0 where
  opened resolved : Status

abbrev pub is_opened : Status → Bool
is_opened opened = true
is_opened resolved = false

pub record Discrepancy : Type 0 where
  pub id : ℕ
  pub account_type : AccountType
  pub wallet_id : ℕ
  pub wallet_balance : ℤ
  pub ledger_balance : ℤ
  pub difference : ℤ
  pub status : Status
  pub resolved_by : Option ℕ

instance abbrev pub discrepancy_keyed : Keyed Discrepancy
discrepancy_keyed = record { key = λ d. d.id }

-- The table of discrepancies; the ids that the database generates are counted up.
pub record Audit : Type 0 where
  pub discrepancies : List Discrepancy
  pub next_id : ℕ

-- `latest_tx` of the scan's query
unfoldable pub latest_balance : ℕ → List (ℕ × ℤ) → Option ℤ
latest_balance id [] = none
latest_balance id ((account, balance_after) ∷ rows) =
    let rest = latest_balance id rows in
    if is_some rest then rest else if account == id then some balance_after else none

abbrev pub differs : ℤ → ℤ → Bool
differs a b = ltb 0 (distance a b)

-- The query's WHERE clause: no row at all is the same as a latest balance of 0.
unfoldable pub is_mismatch : ℤ → Option ℤ → Bool
is_mismatch balance none = differs balance (pos 0)
is_mismatch balance (some ledger) = differs ledger balance

-- `row.ledgerBalance != null ? ... : 0`
abbrev pub ledger_or_zero : Option ℤ → ℤ
ledger_or_zero none = pos 0
ledger_or_zero (some ledger) = ledger

-- `status: OPEN` for this account
abbrev pub is_open_for : AccountType → ℕ → Discrepancy → Bool
is_open_for type id d = d.wallet_id == id && same_type d.account_type type && is_opened d.status

-- The row that a mismatch is recorded as.
abbrev pub discrepancy_of : AccountType → ℕ → ℤ → Option ℤ → ℕ → Discrepancy
discrepancy_of type id balance ledger next_id = record {
  id = next_id;
  account_type = type;
  wallet_id = id;
  wallet_balance = balance;
  ledger_balance = ledger_or_zero ledger;
  difference = balance -ℤ ledger_or_zero ledger;
  status = opened;
  resolved_by = none;
}

-- The loop's body for one row of the query: it continues if one is open for the account.
unfoldable pub report : AccountType → ℕ → ℤ → Option ℤ → Audit → List Discrepancy × Audit
report type id balance ledger a =
    let found = discrepancy_of type id balance ledger a.next_id in
    if is_some (find_first (is_open_for type id) a.discrepancies) then ([], a) else (
      found ∷ [],
      record { discrepancies = a.discrepancies ++ found ∷ []; next_id = suc a.next_id },
    )

-- One account: the query passes over it unless it does not match.
unfoldable pub scan_one : AccountType → ℕ → ℤ → Option ℤ → Audit → List Discrepancy × Audit
scan_one type id balance latest a =
    if is_mismatch balance latest then report type id balance latest a else ([], a)

-- scanAccountType: the new discrepancies, and the table after them
unfoldable pub scan : AccountType → List (ℕ × ℤ) → List (ℕ × ℤ) → Audit → List Discrepancy × Audit
scan type [] ledger a = ([], a)
scan type ((id, balance) ∷ accounts) ledger a =
    let (new, a') = scan_one type id balance (latest_balance id ledger) a in
    let (rest, a'') = scan type accounts ledger a' in (new ++ rest, a'')

-- The rows that the scan of the wallets reads.
abbrev pub accounts_of : List Wallet → List (ℕ × ℤ)
accounts_of [] = []
accounts_of (w ∷ ws) = (w.id, w.balance) ∷ accounts_of ws

abbrev pub rows_of : List WalletTransaction → List (ℕ × ℤ)
rows_of [] = []
rows_of (t ∷ ts) = (t.wallet_id, t.balance_after) ∷ rows_of ts

-- runQuickScan
unfoldable pub quick_scan : Bank → Audit → List Discrepancy × Audit
quick_scan b = scan wallet (accounts_of b.wallets) (rows_of b.transactions)

-- ChainCheckResult; `broken_at` is the row where the walk stopped.
pub record ChainCheck : Type 0 where
  pub passed : Bool
  pub computed_balance : ℤ
  pub broken_at : Option WalletTransaction

-- `computedBalance += direction === CREDIT ? amount : -amount`
abbrev pub step_balance : ℤ → WalletTransaction → ℤ
step_balance computed t = elim t.direction [
  | credit_direction ↦ computed +ℤ t.amount
  | debit_direction ↦ computed -ℤ t.amount
]

-- The loop of checkWalletChain and what follows it; 0.01 naira is 1 kobo.
unfoldable pub walk : ℤ → ℤ → List WalletTransaction → ChainCheck
walk balance computed [] = record {
  passed = leb (distance computed balance) 1;
  computed_balance = computed;
  broken_at = none;
}
walk balance computed (t ∷ ts) =
    let computed' = step_balance computed t in
    let rest = walk balance computed' ts in
    if ltb 1 (distance computed' t.balance_after)
    then record { passed = false; computed_balance = computed'; broken_at = some t }
    else rest

-- checkWalletChain for a wallet
unfoldable pub check_wallet_chain : ℕ → Action Bank ChainCheck
check_wallet_chain id = do
  w ← or_throw (← gets (λ b. lookup id b.wallets)) account_not_found
  rows ← gets (λ b. keep (λ t. t.wallet_id == id) b.transactions)
  pure (walk w.balance (pos 0) rows)

-- resolve
unfoldable pub resolve : ℕ → ℕ → Action Audit Discrepancy
resolve id admin_user_id = do
  item ← or_throw (← gets (λ a. lookup id a.discrepancies)) discrepancy_not_found
  throw_if (not (is_opened item.status)) already_resolved
  let closed : Discrepancy = record item { status = resolved; resolved_by = some admin_user_id }
  modify (λ a. record a { discrepancies = save closed a.discrepancies })
  pure closed
