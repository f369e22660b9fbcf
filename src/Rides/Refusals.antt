-- ===== src/Rides/Refusals.antt =====
-- A payment that throws has moved no money, whatever the payment method.
use ryda.Base.{
  ℕ, ◌≡◌, refl, Bool, true, Option, none, some, ℤ, pos, arith, Result, ok, err, after, result,
  ◌>>=◌, Option-cases, Result-cases, inl, inr, or_throw, no_corporate_account,
}
use ryda.Settings.{Settings}
use ryda.Trips.{PaymentMethod, card, by_wallet, cash, bank_transfer, corporate, Ride, ride_keyed}
use ryda.Wallets.{get_by_user_id, wallet_of, debit}
use ryda.Wallets.Entities.{ride_payment}
use ryda.Wallets.Conservation.{debit-Moves}
use ryda.Corporate.{
  get_account_for_employee, find_by_id, debit_for_ride, apply_ledger_change, flag_ride_for_approval,
}
use ryda.Corporate.Entities.{Corporate, CorporateAccount, account_keyed}
use ryda.Drivers.Entities.{Profile}
use ryda.Debts.{record_debt}
use ryda.Rides.Payment.{
  Context, Gateway, Charge, pay_earnings, credit_driver_earnings, settle_by_wallet,
  charge_commission, settle_by_account, settle_by_cash, settle_by_card, settle_by_transfer,
  settle_by_corporate, payer_of, settle_by,
}
use ryda.Rides.Entities.{Rides, on_corporate}

-- The money of one state is that of another: wallets, fleets, budgets and debts.
abbrev pub SameMoney : Rides → Rides → Type 0
SameMoney w w' =
    (w'.bank ≡ w.bank)
    × (w'.fleets ≡ w.fleets)
    × (w'.corporate ≡ w.corporate)
    × (w'.debts ≡ w.debts)

-- A call that moves no money when it throws.
abbrev Free : {A : Type 0} → Rides → Result A × Rides → Type 0
Free w (ok _, w') = Unit
Free w (err _, w') = SameMoney w w'

credit_driver_earnings_ok :
    (limits : Settings ℤ) (ride : Ride) (p : Profile) (earnings : ℤ) (w : Rides)
    → (r : Ride) × (result (credit_driver_earnings limits ride p earnings) w ≡ ok r)
unfolding credit_driver_earnings
credit_driver_earnings_ok limits ride p earnings w =
    elim (Result-cases (result (pay_earnings limits ride p earnings) w)) [
      | inl (x, e) ↦ (record ride { earnings_settled = true }, ground arith)
      | inr (x, e) ↦ (ride, ground arith)
    ]

credit_driver_earnings-Free :
    (limits : Settings ℤ) (ride : Ride) (p : Profile) (earnings : ℤ) (w w' : Rides)
    → Free w (credit_driver_earnings limits ride p earnings w')
credit_driver_earnings-Free limits ride p earnings w w' =
    let (r, e) = credit_driver_earnings_ok limits ride p earnings w' in grind (arith, e)

settle_by_wallet-Free :
    (limits : Settings ℤ) (ride : Ride) (p : Profile) (earnings : ℤ) (w : Rides)
    → Free w (settle_by_wallet limits ride p earnings w)
unfolding settle_by_wallet get_by_user_id
settle_by_wallet-Free limits ride p earnings w =
    elim (Option-cases (wallet_of ride.passenger_id w.bank.wallets)) [
      | inl missing ↦ ground arith
      | inr (wallet, e) ↦
          let paid = debit wallet.id (pos ride.total_fare) ride_payment (some ride.id) in
          ground (
            arith,
            debit-Moves wallet.id (pos ride.total_fare) ride_payment (some ride.id) w.bank,
            credit_driver_earnings-Free limits ride p earnings w
                (record w { bank = after paid w.bank }),
          )
    ]

settle_by_card-Free :
    (limits : Settings ℤ) (answer : Charge) (ride : Ride) (p : Profile) (earnings : ℤ) (w : Rides)
    → Free w (settle_by_card limits answer ride p earnings w)
unfolding settle_by_card payer_of
settle_by_card-Free limits answer ride p earnings w =
    ground (arith, credit_driver_earnings-Free limits ride p earnings w w)

settle_by_transfer-Free :
    (starts : Bool) (ride : Ride) (w : Rides) → Free w (settle_by_transfer starts ride w)
unfolding settle_by_transfer payer_of
settle_by_transfer-Free starts ride w = ground arith

charge_commission-Free :
    (debt_id : ℕ) (ride : Ride) (p : Profile) (driver_id : ℕ) (w : Rides)
    → Free w (charge_commission debt_id ride p driver_id w)
unfolding charge_commission get_by_user_id record_debt
charge_commission-Free debt_id ride p driver_id w = elim (Option-cases p.fleet_company_id) [
  | inr (fleet, e) ↦ ground arith
  | inl e ↦ elim (Option-cases (wallet_of driver_id w.bank.wallets)) [
    | inl missing ↦ ground arith
    | inr (wallet, ew) ↦ ground arith
  ]
]

settle_by_cash-Free :
    (debt_id : ℕ) (ride : Ride) (p : Profile) (driver_id : ℕ) (w : Rides)
    → Free w (settle_by_cash debt_id ride p driver_id w)
unfolding settle_by_cash
settle_by_cash-Free debt_id ride p driver_id w =
    ground (arith, charge_commission-Free debt_id ride p driver_id w)

-- A corporate call that writes nothing when it throws.
abbrev Kept : Corporate → Result CorporateAccount × Corporate → Type 0
Kept c (ok _, c') = Unit
Kept c (err _, c') = c' ≡ c

debit_for_ride-Kept :
    (id : ℕ) (amount : ℤ) (ride_id user_id : ℕ) (c : Corporate)
    → Kept c (debit_for_ride id amount ride_id user_id c)
unfolding debit_for_ride apply_ledger_change
debit_for_ride-Kept id amount ride_id user_id c = ground arith

get_account_pure : (user_id : ℕ) (c : Corporate) → after (get_account_for_employee user_id) c ≡ c
unfolding get_account_for_employee find_by_id
get_account_pure user_id c = ground arith

settle_by_account-Free :
    (limits : Settings ℤ) (approval_id : ℕ) (account : CorporateAccount) (ride : Ride) (p : Profile)
    (earnings : ℤ) (w : Rides)
    → Free w (settle_by_account limits approval_id account ride p earnings w)
unfolding settle_by_account flag_ride_for_approval
settle_by_account-Free limits approval_id account ride p earnings w =
    let amount = pos ride.total_fare in
    let debited = on_corporate (debit_for_ride account.id amount ride.id ride.passenger_id) in
    let flagged =
      on_corporate (flag_ride_for_approval approval_id account ride.id ride.passenger_id amount) in
    ground (
      arith,
      debit_for_ride-Kept account.id amount ride.id ride.passenger_id w.corporate,
      credit_driver_earnings-Free limits ride p earnings w (after flagged (after debited w)),
    )

finish_corporate :
    (limits : Settings ℤ) (approval_id : ℕ) (ride : Ride) (p : Profile) (earnings : ℤ) (w : Rides)
    (found : Result (Option CorporateAccount) × Corporate)
    → found.1 ≡ w.corporate
    → Free w (
        (on_corporate (λ _. found) >>= λ o. or_throw o no_corporate_account >>= λ account.
        settle_by_account limits approval_id account ride p earnings)
          w)
finish_corporate limits approval_id ride p earnings w (err _, c) h = (refl, refl, h, refl)
finish_corporate limits approval_id ride p earnings w (ok none, c) h = (refl, refl, h, refl)
finish_corporate limits approval_id ride p earnings w (ok (some account), c) h =
    grind (arith, h, settle_by_account-Free limits approval_id account ride p earnings w)

settle_by_corporate-Free :
    (limits : Settings ℤ) (approval_id : ℕ) (ride : Ride) (p : Profile) (earnings : ℤ) (w : Rides)
    → Free w (settle_by_corporate limits approval_id ride p earnings w)
unfolding settle_by_corporate
settle_by_corporate-Free limits approval_id ride p earnings w =
    finish_corporate limits approval_id ride p earnings w
      (get_account_for_employee ride.passenger_id w.corporate)
      (get_account_pure ride.passenger_id w.corporate)

pub settle_by-Free :
    (method : PaymentMethod) (context : Context) (gateway : Gateway) (ride : Ride) (p : Profile)
    (driver_id : ℕ) (earnings : ℤ) (w : Rides)
    → Free w (settle_by method context gateway ride p driver_id earnings w)
unfolding settle_by
settle_by-Free by_wallet context gateway ride p driver_id earnings w =
    settle_by_wallet-Free context.limits ride p earnings w
settle_by-Free cash context gateway ride p driver_id earnings w =
    settle_by_cash-Free context.debt_id ride p driver_id w
settle_by-Free card context gateway ride p driver_id earnings w =
    settle_by_card-Free context.limits gateway.charge ride p earnings w
settle_by-Free bank_transfer context gateway ride p driver_id earnings w =
    settle_by_transfer-Free gateway.transfer_starts ride w
settle_by-Free corporate context gateway ride p driver_id earnings w =
    settle_by_corporate-Free context.limits context.approval_id ride p earnings w
