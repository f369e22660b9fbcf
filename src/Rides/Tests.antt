-- ===== src/Rides/Tests.antt =====
-- Runs of the ride methods, and examples of the theorems about them.
use ryda.Base.{
  ℕ, ◌≡◌, refl, true, false, none, some, [], ◌∷◌, pos, ◌+ℤ◌, ◌-ℤ◌, after, result, ok, err, ◌⊎◌,
  just_taken, driver_unavailable, insufficient_balance, save,
}
use ryda.Settings.{Settings}
use ryda.Trips.{
  Ride, ride_keyed, economy, by_wallet, searching, accepted, in_progress, completed, manual,
}
use ryda.Wallets.{credit, debit, over_maximum, get_by_user_id}
use ryda.Wallets.Entities.{wallet_keyed, Wallet}
use ryda.Wallets.Conservation.{funds}
use ryda.Drivers.{reserve_for_trip}
use ryda.Drivers.Entities.{Profile, Drivers, online_for_rides, rookie, active, car}
use ryda.Drivers.Entities as D
use ryda.Debts.{debt_keyed}
use ryda.Users.{User}
use ryda.Rides.Entities.{Rides}
use ryda.Rides.Acceptance.{claim, claim_rows}
use ryda.Rides.Settlement.{
  complete_and_settle, vehicle_category_of, complete_at, completed_at_commission,
  commission_percent_of, settle_or_revert,
}
use ryda.Rides.Payment.{
  charged, Context, Gateway, settle_by, settle_by_wallet, credit_driver_earnings, pay_earnings,
  charge_commission,
}
use ryda.Rides.Completion.{InProgress, complete_and_settle_fails}
use ryda.Rides.Refusals.{SameMoney}
use ryda.Rides.Claims.{claim_once}
use ryda.Rides.Earnings.{cash_debt, settle_by_wallet-funds, charge_commission_or_debt}
use ryda.Rides.Pins.{Secret, guess_all, guess_all-Secret}
use ryda.Rides.Lifecycle.{AllFit}
use ryda.Rides.Ownership.{accept, arrive, guess_pin, run_all, run_all_fit}

abbrev no_settings : {A : Type 0} → Settings A
no_settings _ = none

abbrev ada_user : User
ada_user = record {
  id = 10;
  phone = some 80300;
  email = none;
  is_phone_verified = true;
  referral_code = 77;
  referred_by_code = none;
  rating = 500;
  rating_count = 0;
}

-- A ride of 2,000 naira that looks for a driver.
abbrev wanted : Ride
wanted = record {
  id = 1;
  passenger_id = 20;
  driver_id = none;
  vehicle_id = none;
  category = economy;
  status = searching;
  dispatch_mode = manual;
  city = none;
  waiting_fee = 0;
  cancellation_fee = none;
  total_fare = 200000;
  tip_amount = 0;
  verification_pin = some 4321;
  is_pin_verified = false;
  pin_attempt_count = 0;
  commission_percent = none;
  commission_amount = none;
  driver_earnings = none;
  earnings_settled = false;
  payment_method = by_wallet;
  passenger_rating = none;
  driver_rating = none;
  cancelled_by = none;
  accepted_at = none;
  arrived_at = none;
  started_at = none;
  completed_at = none;
  cancelled_at = none;
  created_at = 3;
}

abbrev driven : Ride
driven = record wanted { driver_id = some 10; vehicle_id = some 5; status = in_progress }

abbrev ada : Profile
ada = record {
  id = 1;
  user_id = 10;
  approval = D.accepted;
  availability = online_for_rides;
  last_online = some online_for_rides;
  active_vehicle_id = some 5;
  rating = 450;
  rating_count = 3;
  total_trips = 0;
  completed_trips = 0;
  cancelled_trips = 0;
  level = rookie;
  fleet_company_id = none;
  commission_override_percent = some 2000;
}

abbrev purse : Wallet
purse = record { id = 1; user_id = 20; balance = pos 500000; is_frozen = false }

abbrev till : Wallet
till = record { id = 2; user_id = 10; balance = pos 0; is_frozen = false }

-- The tables with one ride, and the two wallets.
abbrev world_of : Ride → Wallet → Wallet → Rides
world_of r passenger driver = record {
  rides = r ∷ [];
  offers = [];
  users = ada_user ∷ [];
  drivers = record {
    profiles = ada ∷ [];
    capabilities = [];
    vehicles =
        record { id = 5; category = car; approved_ride_categories = []; status = active } ∷ [];
    logs = [];
    events = [];
  };
  passengers = [];
  bank = record { wallets = passenger ∷ driver ∷ []; transactions = []; events = []; now = 9 };
  fleets = record { companies = []; staff = []; wallets = []; transactions = []; payouts = [] };
  corporate = record {
    accounts = [];
    employees = [];
    transactions = [];
    approvals = [];
    invoices = [];
    now = 9;
  };
  debts = [];
  promotions = [];
  redemptions = [];
  grants = [];
  devices = [];
  flags = [];
  events = [];
}

abbrev context : Context
context = record {
  limits = no_settings;
  settings = no_settings;
  rules = [];
  debt_id = 1;
  approval_id = 1;
  log_id = 1;
  passenger_id = 1;
  passenger_flag_id = 1;
  driver_flag_id = 2;
}

abbrev gateway : Gateway
gateway = record { charge = charged; transfer_starts = true }

-- A passenger who cannot pay: nobody's money moves and the ride is in progress.
abbrev poor : Rides
poor = world_of driven (record purse { balance = pos 100 }) till

complete_and_settle_fails_example :
    let w' = after (complete_and_settle context gateway driven ada 10) poor in
    SameMoney poor w' × InProgress 1 w'
unfolding complete_and_settle vehicle_category_of complete_at completed_at_commission
    commission_percent_of settle_or_revert settle_by settle_by_wallet get_by_user_id debit
complete_and_settle_fails_example =
    complete_and_settle_fails context gateway driven ada 10 poor {e = insufficient_balance} refl
      refl refl

abbrev market : Rides
market = world_of wanted purse till

claim_once_example :
    let second = result (claim 2 1 11) (after (claim 1 1 10) market) in
    (second ≡ err just_taken) ⊎ (second ≡ err driver_unavailable)
unfolding claim claim_rows reserve_for_trip
claim_once_example =
    claim_once 1 2 1 10 11 market
      {r = record wanted {
        driver_id = some 10;
        vehicle_id = some 5;
        status = accepted;
        accepted_at = some 9;
      }}
      refl

-- The ride as it is completed at 20 percent.
abbrev done : Ride
done = record driven {
  status = completed;
  completed_at = some 9;
  commission_percent = some 2000;
  commission_amount = some 40000;
  driver_earnings = some (pos 160000);
}

abbrev paying : Rides
paying = world_of done purse till

settle_by_wallet-funds_example :
    funds (after (settle_by_wallet no_settings done ada (pos 160000)) paying).bank
    ≡ funds paying.bank -ℤ pos 200000 +ℤ pos 160000
unfolding settle_by_wallet credit_driver_earnings pay_earnings get_by_user_id debit credit
    over_maximum ◌+ℤ◌ ◌-ℤ◌
settle_by_wallet-funds_example =
    settle_by_wallet-funds no_settings done ada (pos 160000) paying
      {r = record done { earnings_settled = true }} refl refl refl refl

charge_commission_or_debt_example :
    let w' = after (charge_commission 1 done ada 10) paying in
    (result (charge_commission 1 done ada 10) paying ≡ ok tt)
    × (((w'.bank.wallets
            ≡ save (record till { balance = till.balance -ℤ pos 40000 }) paying.bank.wallets)
          × (w'.debts ≡ paying.debts))
        ⊎ ((w'.bank ≡ paying.bank) × (w'.debts ≡ save (cash_debt 1 10 1 (pos 40000)) paying.debts)))
charge_commission_or_debt_example =
    charge_commission_or_debt 1 done ada 10 paying {wallet = till} refl refl refl

guess_all-Secret_example :
    (m : ℕ) × Secret 1 10 4321 m (guess_all 1 10 (1 ∷ 2 ∷ 3 ∷ 4 ∷ 5 ∷ 4321 ∷ []) poor)
guess_all-Secret_example =
    guess_all-Secret 1 10 4321 5 0 (1 ∷ 2 ∷ 3 ∷ 4 ∷ 5 ∷ 4321 ∷ []) poor refl
      (driven, refl, refl, refl, refl, refl) refl

run_all_fit_example :
    AllFit
      (run_all (accept no_settings false 1 1 10 ∷ arrive 1 10 ∷ guess_pin 1 10 4321 ∷ []) market)
run_all_fit_example =
    run_all_fit (accept no_settings false 1 1 10 ∷ arrive 1 10 ∷ guess_pin 1 10 4321 ∷ []) market
      refl
