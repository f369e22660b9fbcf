-- ===== src/Rides/Payment.antt =====
-- src/rides/rides.service.ts: how the fare of a completed ride is paid, by its payment method. What
-- PaymentsService answers about a card or a transfer is an argument.
use ryda.Base.{
  ℕ, ltb, Bool, true, not, Option, none, some, List, ℤ, pos, ◌+ℤ◌, if◌then◌else◌, Action, ok, err,
  ◌>>=◌, ◌>>◌, pure, throw, gets, or_throw, throw_if, catch, lookup, no_email, card_failed,
  no_corporate_account, user_not_found, transfer_failed, is_some,
}
use ryda.Settings.{Settings}
use ryda.Trips.{PaymentMethod, card, by_wallet, cash, bank_transfer, corporate, Ride, ride_keyed}
use ryda.Wallets.{get_by_user_id, credit, debit}
use ryda.Wallets.Entities.{ride_payment, ride_earning, commission}
use ryda.Fleet.{credit_for_ride_earning, debit_fleet_commission}
use ryda.Corporate.{get_account_for_employee, debit_for_ride, flag_ride_for_approval}
use ryda.Corporate.Entities.{CorporateAccount}
use ryda.Debts.{record_debt, from_ride}
use ryda.Commission.{Rule}
use ryda.Drivers.Entities.{Profile, vehicle_keyed}
use ryda.Users.{User, user_keyed}
use ryda.Rides.{store, emit}
use ryda.Rides.Entities.{
  Rides, credit_failed, payment_failed, on_bank, on_fleets, on_corporate, on_debts,
}

-- The settings, the rules of commission, and the ids that the database generates for new rows.
pub record Context : Type 0 where
  pub limits : Settings ℤ
  pub settings : Settings ℕ
  pub rules : List Rule
  pub debt_id : ℕ
  pub approval_id : ℕ
  pub log_id : ℕ
  pub passenger_id : ℕ
  pub passenger_flag_id : ℕ
  pub driver_flag_id : ℕ

-- What the gateway answers: to a charge of the saved card, and to the start of a transfer.
pub data Charge : Type 0 where
  charged declined unreachable : Charge

pub record Gateway : Type 0 where
  pub charge : Charge
  pub transfer_starts : Bool

-- `parseFloat(ride.commissionAmount ?? '0')`
abbrev pub or_zero : Option ℕ → ℕ
or_zero none = 0
or_zero (some n) = n

-- The gross credit and the commission out of it, of a fleet or of the driver.
unfoldable pub pay_earnings : Settings ℤ → Ride → Profile → ℤ → Action Rides (Unit {0})
pay_earnings limits ride profile earnings =
    let amount = or_zero ride.commission_amount in
    elim profile.fleet_company_id [
      | some fleet ↦
          on_fleets (credit_for_ride_earning fleet (earnings +ℤ pos amount) ride.id)
          >> (if ltb 0 amount
              then on_fleets (debit_fleet_commission fleet (pos amount) ride.id)
              else pure tt)
      | none ↦ on_bank (get_by_user_id profile.user_id) >>= λ wallet.
          on_bank (credit limits wallet.id (earnings +ℤ pos amount) ride_earning (some ride.id))
          >> (if ltb 0 amount
              then on_bank (debit wallet.id (pos amount) commission (some ride.id)) >> pure tt
              else pure tt)
    ]

-- creditDriverEarnings: a failure is reported, and leaves the ride unsettled.
unfoldable pub credit_driver_earnings : Settings ℤ → Ride → Profile → ℤ → Action Rides Ride
credit_driver_earnings limits ride profile earnings w =
    let (paid, w') = pay_earnings limits ride profile earnings w in
    elim paid [
      | err _ ↦ (emit (credit_failed ride.id earnings) >> pure ride) w'
      | ok _ ↦
          let settled : Ride = record ride { earnings_settled = true } in
          (store settled >> pure settled) w'
    ]

-- The fare out of the passenger's wallet.
unfoldable pub settle_by_wallet : Settings ℤ → Ride → Profile → ℤ → Action Rides Ride
settle_by_wallet limits ride profile earnings = do
  wallet ← on_bank (get_by_user_id ride.passenger_id)
  on_bank (debit wallet.id (pos ride.total_fare) ride_payment (some ride.id))
  credit_driver_earnings limits ride profile earnings

-- The commission on a fare that the driver was paid in cash; a debt where it cannot be taken now.
unfoldable pub charge_commission : ℕ → Ride → Profile → ℕ → Action Rides (Unit {0})
charge_commission debt_id ride profile driver_id =
    let amount = pos (or_zero ride.commission_amount) in
    elim profile.fleet_company_id [
      | some fleet ↦ catch (on_fleets (debit_fleet_commission fleet amount ride.id)) (λ _.
          on_debts (record_debt debt_id none (some fleet) ride.id amount from_ride) >> pure tt)
      | none ↦ on_bank (get_by_user_id driver_id) >>= λ wallet.
          catch (on_bank (debit wallet.id amount commission (some ride.id)) >> pure tt) (λ _.
            on_debts (record_debt debt_id (some driver_id) none ride.id amount from_ride)
            >> pure tt)
    ]

unfoldable pub settle_by_cash : ℕ → Ride → Profile → ℕ → Action Rides Ride
settle_by_cash debt_id ride profile driver_id = do
  charge_commission debt_id ride profile driver_id
  let settled : Ride = record ride { earnings_settled = true }
  store settled
  pure settled

-- The passenger, who needs an email to pay through the gateway.
unfoldable pub payer_of : Ride → Action Rides User
payer_of ride = do
  passenger ← or_throw (← gets (λ w. lookup ride.passenger_id w.users)) user_not_found
  throw_if (not (is_some passenger.email)) no_email
  pure passenger

-- A charge of the saved card.
unfoldable pub settle_by_card : Settings ℤ → Charge → Ride → Profile → ℤ → Action Rides Ride
settle_by_card limits charge ride profile earnings = payer_of ride >> elim charge [
  | charged ↦ credit_driver_earnings limits ride profile earnings
  | declined ↦ emit (payment_failed ride.passenger_id) >> throw card_failed
  | unreachable ↦ throw card_failed
]

-- The start of a bank transfer: the driver is credited when it is confirmed.
unfoldable pub settle_by_transfer : Bool → Ride → Action Rides Ride
settle_by_transfer starts ride = do payer_of ride; throw_if (not starts) transfer_failed; pure ride

-- The fare out of the budget of an account.
unfoldable pub settle_by_account :
    Settings ℤ → ℕ → CorporateAccount → Ride → Profile → ℤ → Action Rides Ride
settle_by_account limits approval_id account ride profile earnings = do
  on_corporate (debit_for_ride account.id (pos ride.total_fare) ride.id ride.passenger_id)
  on_corporate
      (flag_ride_for_approval approval_id account ride.id ride.passenger_id (pos ride.total_fare))
  credit_driver_earnings limits ride profile earnings

-- The account of the passenger's employer pays.
unfoldable pub settle_by_corporate : Settings ℤ → ℕ → Ride → Profile → ℤ → Action Rides Ride
settle_by_corporate limits approval_id ride profile earnings = do
  found ← on_corporate (get_account_for_employee ride.passenger_id)
  account ← or_throw found no_corporate_account
  settle_by_account limits approval_id account ride profile earnings

-- The body of the try in completeRide, by the payment method.
unfoldable pub settle_by :
    PaymentMethod → Context → Gateway → Ride → Profile → ℕ → ℤ → Action Rides Ride
settle_by by_wallet context gateway ride profile driver_id earnings =
    settle_by_wallet context.limits ride profile earnings
settle_by cash context gateway ride profile driver_id earnings =
    settle_by_cash context.debt_id ride profile driver_id
settle_by card context gateway ride profile driver_id earnings =
    settle_by_card context.limits gateway.charge ride profile earnings
settle_by bank_transfer context gateway ride profile driver_id earnings =
    settle_by_transfer gateway.transfer_starts ride
settle_by corporate context gateway ride profile driver_id earnings =
    settle_by_corporate context.limits context.approval_id ride profile earnings
