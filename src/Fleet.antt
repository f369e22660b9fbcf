-- ===== src/Fleet.antt =====
-- src/fleet/fleet.service.ts: fleet companies, their staff, the ledger of a fleet's wallet, and payouts
-- to its bank account. The generated ids and what the payment provider answers are arguments.
pub mod Entities
pub mod Payouts
mod Tests
use ryda.Base.{
  ℕ, ◌==◌, Bool, true, false, not, ◌&&◌, is_some, Option, none, some, List, [], ◌∷◌, ◌++◌,
  if◌then◌else◌, ℤ, pos, ◌+ℤ◌, ◌-ℤ◌, ltb_ℤ, leb_ℤ, Action, Result, ok, err, ◌>>=◌, ◌>>◌, pure, gets,
  or_throw, throw_if, modify, transaction, lookup, save, find_first, already_in_fleet,
  fleet_not_found, not_in_fleet, not_fleet_staff, not_fleet_owner, fleet_wallet_not_found,
  fleet_amount_not_positive, insufficient_fleet_balance,
}
use ryda.Wallets.Entities.{Direction, credit_direction, debit_direction}
use Entities.{
  Company, company_keyed, Role, owner, manager, is_owner, Staff, staff_keyed, FleetWallet,
  fleet_wallet_keyed, Category, ride_earning, payout, adjustment, FleetTransaction, PayoutStatus,
  pending, processing, success, failed, Payout, payout_keyed, Fleets,
}

-- `staffRepo.findOne({ where: { userId } })`
abbrev pub staff_of : ℕ → List Staff → Option Staff
staff_of user_id = find_first (λ s. s.user_id == user_id)

-- createCompany; the ids are those of the company, its wallet and its first member of staff.
unfoldable pub create_company : ℕ → ℕ → ℕ → ℕ → Action Fleets Company
create_company id wallet_id staff_id owner_user_id = do
  existing ← gets (λ f. staff_of owner_user_id f.staff)
  throw_if (is_some existing) already_in_fleet
  let company : Company = record { id = id; owner_user_id = owner_user_id; is_active = true }
  modify λ f. record f {
    companies = save company f.companies;
    wallets = save (record { id = wallet_id; fleet_company_id = id; balance = pos 0 }) f.wallets;
    staff =
        save
          (record { id = staff_id; fleet_company_id = id; user_id = owner_user_id; role = owner })
          f.staff;
  }
  pure company

-- findById
unfoldable pub find_by_id : ℕ → Action Fleets Company
find_by_id id f = or_throw (lookup id f.companies) fleet_not_found f

-- setActive
unfoldable pub set_active : ℕ → Bool → Action Fleets Company
set_active id is_active = do
  company ← find_by_id id
  let saved : Company = record company { is_active = is_active }
  modify (λ f. record f { companies = save saved f.companies })
  pure saved

-- getCompanyForStaff
unfoldable pub get_company_for_staff : ℕ → Action Fleets Company
get_company_for_staff user_id = do
  member ← or_throw (← gets (λ f. staff_of user_id f.staff)) not_in_fleet
  find_by_id member.fleet_company_id

-- assertIsStaff
unfoldable pub assert_is_staff : ℕ → ℕ → Action Fleets Staff
assert_is_staff fleet_company_id user_id = do
  found ← gets (λ f.
      find_first (λ s. s.fleet_company_id == fleet_company_id && s.user_id == user_id) f.staff)
  or_throw found not_fleet_staff

-- assertIsOwner
unfoldable pub assert_is_owner : ℕ → ℕ → Action Fleets (Unit {0})
assert_is_owner fleet_company_id user_id = do
  member ← assert_is_staff fleet_company_id user_id
  throw_if (not (is_owner member.role)) not_fleet_owner

-- addManager
unfoldable pub add_manager : ℕ → ℕ → ℕ → ℕ → Action Fleets Staff
add_manager id fleet_company_id actor_user_id manager_user_id = do
  assert_is_owner fleet_company_id actor_user_id
  existing ← gets (λ f. staff_of manager_user_id f.staff)
  throw_if (is_some existing) already_in_fleet
  let added : Staff = record {
    id = id;
    fleet_company_id = fleet_company_id;
    user_id = manager_user_id;
    role = manager;
  }
  modify (λ f. record f { staff = save added f.staff })
  pure added

-- getWallet
unfoldable pub get_wallet : ℕ → Action Fleets FleetWallet
get_wallet fleet_company_id f =
    or_throw (find_first (λ w. w.fleet_company_id == fleet_company_id) f.wallets)
      fleet_wallet_not_found f

abbrev pub is_debit : Direction → Bool
is_debit debit_direction = true
is_debit credit_direction = false

-- The callback of the transaction in applyLedgerChange.
unfoldable pub change_locked : ℕ → ℤ → Direction → Category → Option ℕ → Action Fleets FleetWallet
change_locked wallet_id amount direction category reference = do
  wallet ← or_throw (← gets (λ f. lookup wallet_id f.wallets)) fleet_wallet_not_found
  throw_if (is_debit direction && ltb_ℤ wallet.balance amount) insufficient_fleet_balance
  let balance = if is_debit direction then wallet.balance -ℤ amount else wallet.balance +ℤ amount
  let saved : FleetWallet = record wallet { balance = balance }
  let row : FleetTransaction = record {
    fleet_wallet_id = wallet.id;
    direction = direction;
    category = category;
    amount = amount;
    balance_after = balance;
    reference_id = reference;
  }
  modify λ f. record f { wallets = save saved f.wallets; transactions = f.transactions ++ row ∷ [] }
  pure saved

-- applyLedgerChange
unfoldable pub apply_ledger_change :
    ℕ → ℤ → Direction → Category → Option ℕ → Action Fleets FleetWallet
apply_ledger_change wallet_id amount direction category reference = do
  throw_if (leb_ℤ amount (pos 0)) fleet_amount_not_positive
  transaction (change_locked wallet_id amount direction category reference)

-- creditForRideEarning
unfoldable pub credit_for_ride_earning : ℕ → ℤ → ℕ → Action Fleets (Unit {0})
credit_for_ride_earning fleet_company_id amount ride_id = do
  wallet ← get_wallet fleet_company_id
  apply_ledger_change wallet.id amount credit_direction ride_earning (some ride_id)
  pure tt

-- debitFleetCommission
unfoldable pub debit_fleet_commission : ℕ → ℤ → ℕ → Action Fleets (Unit {0})
debit_fleet_commission fleet_company_id amount ride_id = do
  wallet ← get_wallet fleet_company_id
  apply_ledger_change wallet.id amount debit_direction adjustment (some ride_id)
  pure tt

-- What the payment provider does with a payout: it is not configured, it takes the transfer, or a call
-- of it throws.
pub data Provider : Type 0 where
  unconfigured refuses : Provider
  takes : ℕ → Provider

-- The transfer of a payout that is debited and saved.
unfoldable pub send_payout : Provider → FleetWallet → Payout → Action Fleets Payout
send_payout unconfigured wallet p = do
  let sent : Payout = record p { status = success; simulated = true }
  modify (λ f. record f { payouts = save sent f.payouts })
  pure sent
send_payout (takes code) wallet p = do
  let sent : Payout = record p { status = processing; transfer_code = some code }
  modify (λ f. record f { payouts = save sent f.payouts })
  pure sent
send_payout refuses wallet p = do
  apply_ledger_change wallet.id p.amount credit_direction adjustment (some p.id)
  let sent : Payout = record p { status = failed }
  modify (λ f. record f { payouts = save sent f.payouts })
  pure sent

-- The company is read inside the `try`, so a missing one refuses too.
abbrev pub reached : Provider → Bool → Provider
reached (takes code) false = refuses
reached p _ = p

-- The row of a payout that is debited, and its transfer.
unfoldable pub place_payout : Provider → FleetWallet → Payout → Action Fleets Payout
place_payout provider wallet created = do
  modify (λ f. record f { payouts = save created f.payouts })
  company ← gets (λ f. lookup created.fleet_company_id f.companies)
  send_payout (reached provider (is_some company)) wallet created

-- requestPayout
unfoldable pub request_payout : Provider → ℕ → ℕ → ℕ → ℤ → Action Fleets Payout
request_payout provider id fleet_company_id actor_user_id amount = do
  assert_is_owner fleet_company_id actor_user_id
  wallet ← get_wallet fleet_company_id
  throw_if (ltb_ℤ wallet.balance amount) insufficient_fleet_balance
  apply_ledger_change wallet.id amount debit_direction payout none
  let created : Payout = record {
    id = id;
    fleet_company_id = fleet_company_id;
    amount = amount;
    status = pending;
    simulated = false;
    transfer_code = none;
  }
  place_payout provider wallet created
