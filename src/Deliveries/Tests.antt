-- ===== src/Deliveries/Tests.antt =====
-- Runs of the delivery methods, and examples of the theorems about them.
use ryda.Base.{
  ◌≡◌, refl, true, false, none, some, [], ◌∷◌, pos, after, result, err, lookup, ◌⊎◌,
  insufficient_balance, not_picked_up, delivery_taken, driver_unavailable,
}
use ryda.Settings.{Settings}
use ryda.Trips.{by_wallet}
use ryda.Wallets.Entities.{Wallet}
use ryda.Drivers.{reserve_for_trip}
use ryda.Drivers.Entities.{Profile, Drivers, online_for_deliveries, on_trip, rookie, active}
use ryda.Drivers.Entities as D
use ryda.Payments.{unreachable}
use ryda.Deliveries.Entities.{
  bike, van, Status, searching, in_transit, delivered, by_customer, Order, order_keyed, Deliveries,
  can_vehicle_cover_delivery,
}
use ryda.Deliveries.Acceptance.{claim, claim_rows}
use ryda.Deliveries.Payment.{Context}
use ryda.Deliveries.Completion.{
  Proof, mark_delivered, vehicle_category_of, commission_amount_of, cod_status_of,
}
use ryda.Deliveries.Entities.{partial}
use ryda.Deliveries.Progress.{From}
use ryda.Deliveries.Closing.{accept, transit, deliver, cancel, run_all, run_all-From}
use ryda.Deliveries.Claims.{claim_delivery_once}
use ryda.Deliveries.Unpaid.{delivered_unpaid}

abbrev no_settings : {A : Type 0} → Settings A
no_settings _ = none

abbrev parcel : Order
parcel = record {
  id = 1;
  customer_id = 20;
  driver_id = none;
  pending_courier = none;
  vehicle_id = none;
  vehicle_type = bike;
  status = searching;
  requires_signature = false;
  is_cod = false;
  cod_amount = none;
  cod_collected = none;
  cod_status = none;
  cod_reconciled_at = none;
  city = none;
  total_fare = 150000;
  payment_method = by_wallet;
  commission_percent = none;
  commission_amount = none;
  driver_earnings = none;
  earnings_settled = false;
  cancelled_by = none;
  accepted_at = none;
  picked_up_at = none;
  delivered_at = none;
  cancelled_at = none;
  driver_rating = none;
}

abbrev carried : Order
carried = record parcel { driver_id = some 10; status = in_transit }

abbrev ada : Profile
ada = record {
  id = 1;
  user_id = 10;
  approval = D.accepted;
  availability = online_for_deliveries;
  last_online = some online_for_deliveries;
  active_vehicle_id = some 5;
  rating = 450;
  rating_count = 3;
  total_trips = 0;
  completed_trips = 0;
  cancelled_trips = 0;
  level = rookie;
  fleet_company_id = none;
  commission_override_percent = some 2000;
}

abbrev purse : Wallet
purse = record { id = 1; user_id = 20; balance = pos 500; is_frozen = false }

abbrev tables : Order → Profile → Deliveries
tables o p = record {
  orders = o ∷ [];
  users = [];
  drivers = record {
    profiles = p ∷ [];
    capabilities = [];
    vehicles =
        record { id = 5; category = D.motorcycle; approved_ride_categories = []; status = active }
        ∷ [];
    logs = [];
    events = [];
  };
  payments = record {
    records = [];
    cards = [];
    disputes = [];
    bank = record { wallets = purse ∷ []; transactions = []; events = []; now = 9 };
    flags = [];
    events = [];
  };
  fleets = record { companies = []; staff = []; wallets = []; transactions = []; payouts = [] };
  corporate = record {
    accounts = [];
    employees = [];
    transactions = [];
    approvals = [];
    invoices = [];
    now = 9;
  };
  debts = [];
  events = [];
}

abbrev context : Context
context = record {
  limits = no_settings;
  settings = no_settings;
  rules = [];
  is_configured = false;
  answers = λ _. unreachable;
  payment = record { id = 2; reference = 8; gateway_reference = 100; flag_id = 1 };
  shortfall_id = 1;
  debt_id = 2;
  log_id = 3;
}

abbrev proof : Proof
proof = record { has_photo = true; has_signature = false; cod_collected = none }

small_for_van : can_vehicle_cover_delivery D.motorcycle van ≡ false
unfolding can_vehicle_cover_delivery
small_for_van = refl

-- 20% of 1,500 naira
commission_run : commission_amount_of 2000 150000 ≡ 30000
unfolding commission_amount_of
commission_run = refl

part_collected : cod_status_of 500 200 ≡ partial
unfolding cod_status_of
part_collected = refl

claim_delivery_once_example :
    let claimed = record parcel {
      driver_id = some 10;
      vehicle_id = some 5;
      status = Status.accepted;
      accepted_at = some 9;
    } in
    let d' = after (claim 1 1 10) (tables parcel ada) in
    let second = result (claim 2 1 11) d' in
    (lookup 1 d'.orders ≡ some claimed)
    × (claimed.driver_id ≡ some 10)
    × ((second ≡ err delivery_taken) ⊎ (second ≡ err driver_unavailable))
unfolding claim claim_rows reserve_for_trip
claim_delivery_once_example = claim_delivery_once 1 2 1 10 11 (tables parcel ada) refl

run_all-From_example : From 1 in_transit (
    run_all
      (deliver context proof 1 10 ∷ cancel 1 1 20 by_customer ∷ transit 1 10 ∷ accept 1 1 10 ∷ [])
      (tables carried ada))
run_all-From_example =
    run_all-From 1 in_transit
      (deliver context proof 1 10 ∷ cancel 1 1 20 by_customer ∷ transit 1 10 ∷ accept 1 1 10 ∷ [])
      (tables carried ada) (carried, refl, refl)

-- The customer has 5 naira.
delivered_unpaid_example :
    let d = tables carried (record ada { availability = on_trip }) in
    let d' = after (mark_delivered context proof 1 10) d in
    (o' : Order) × (result (mark_delivered context proof 1 10) d ≡ err insufficient_balance)
    × (lookup 1 d'.orders ≡ some o')
    × (o'.status ≡ delivered)
    × (d'.payments ≡ d.payments)
    × (d'.drivers ≡ d.drivers)
    × (mark_delivered context proof 1 10 d' ≡ (err not_picked_up, d'))
unfolding vehicle_category_of
delivered_unpaid_example =
    delivered_unpaid context context 1 10 proof proof carried
      (record ada { availability = on_trip }) (some (D.category_number D.motorcycle))
      (tables carried (record ada { availability = on_trip }))
      (refl, refl, refl, refl, refl, refl, refl, refl, refl) (purse, refl, refl, refl, refl, refl)
