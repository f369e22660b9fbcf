-- ===== src/Rides/Earnings.antt =====
-- What the settlement of a ride does to the money of passengers and drivers.
use ryda.Base.{
  share_le, ℕ, ◌≤◌, ◌≡◌, refl, true, false, none, some, ℤ, pos, ◌+ℤ◌, ◌-ℤ◌, arith, int_laws, ok,
  after, result, save, lookup, Option, Option-cases, Result-cases, inl, inr, ◌⊎◌,
}
use ryda.Settings.{Settings}
use ryda.Trips.{Ride, ride_keyed}
use ryda.Wallets.{wallet_of, get_by_user_id, credit, debit}
use ryda.Wallets.Entities.{
  Wallet, wallet_keyed, Bank, Category, ride_payment, ride_earning, commission,
}
use ryda.Wallets.Conservation.{funds, debit-Moves, credit-Moves}
use ryda.Debts.{Debt, debt_keyed, record_debt, from_ride, pending}
use ryda.Drivers.Entities.{Profile}
use ryda.Rides.Settlement.{commission_amount_of, completed_at_commission}
use ryda.Rides.Payment.{
  or_zero, pay_earnings, credit_driver_earnings, settle_by_wallet, charge_commission,
}
use ryda.Rides.Entities.{Rides}

-- A commission of at most 100 percent is at most the fare, and what is left of the fare is the driver's.
pub completed_at_commission-split :
    (now percent : ℕ) (ride : Ride)
    → percent ≤ 10000
    → let done = completed_at_commission now percent ride in
      (amount : ℕ) × (earnings : ℤ) × (done.commission_amount ≡ some amount)
      × (done.driver_earnings ≡ some earnings)
      × (amount ≤ ride.total_fare)
      × (earnings +ℤ pos amount ≡ pos ride.total_fare)
unfolding completed_at_commission commission_amount_of
completed_at_commission-split now percent ride h =
    let amount = commission_amount_of percent ride.total_fare in
    (
      amount,
      pos ride.total_fare -ℤ pos amount,
      refl,
      refl,
      share_le percent ride.total_fare h,
      omega int_laws,
    )

-- Paying the earnings of a driver who is in no fleet adds the net earnings to the sum of all wallet
-- balances: the gross is credited and the commission is taken out of it.
pub pay_earnings-funds :
    (limits : Settings ℤ) (ride : Ride) (p : Profile) (earnings : ℤ) (w : Rides)
    → p.fleet_company_id ≡ none
    → result (pay_earnings limits ride p earnings) w ≡ ok tt
    → funds (after (pay_earnings limits ride p earnings) w).bank ≡ funds w.bank +ℤ earnings
unfolding pay_earnings get_by_user_id
pay_earnings-funds limits ride p earnings w f h =
    elim (Option-cases (wallet_of p.user_id w.bank.wallets)) [
      | inl missing ↦ absurd (ground arith)
      | inr (wallet, e) ↦
          let amount = or_zero ride.commission_amount in
          let credited =
            after (credit limits wallet.id (earnings +ℤ pos amount) ride_earning (some ride.id))
              w.bank in
          grind (
            int_laws,
            credit-Moves limits wallet.id (earnings +ℤ pos amount) ride_earning (some ride.id)
                w.bank,
            debit-Moves wallet.id (pos amount) commission (some ride.id) credited,
          )
    ]

-- The debt that a cash ride leaves.
abbrev pub cash_debt : ℕ → ℕ → ℕ → ℤ → Debt
cash_debt id driver_id ride_id amount = record {
  id = id;
  driver_id = some driver_id;
  fleet_company_id = none;
  ride_id = ride_id;
  source_type = from_ride;
  amount_owed = amount;
  status = pending;
}

-- When a wallet ride of a driver who is in no fleet settles and its earnings are marked as settled, the
-- sum of all wallet balances goes down by the fare and up by the driver's earnings.
pub settle_by_wallet-funds :
    (limits : Settings ℤ) (ride : Ride) (p : Profile) (earnings : ℤ) (w : Rides) {r : Ride}
    → p.fleet_company_id ≡ none
    → ride.earnings_settled ≡ false
    → result (settle_by_wallet limits ride p earnings) w ≡ ok r
    → r.earnings_settled ≡ true
    → funds (after (settle_by_wallet limits ride p earnings) w).bank
      ≡ funds w.bank -ℤ pos ride.total_fare +ℤ earnings
unfolding settle_by_wallet credit_driver_earnings get_by_user_id
settle_by_wallet-funds limits ride p earnings w f u h s =
    elim (Option-cases (wallet_of ride.passenger_id w.bank.wallets)) [
      | inl missing ↦ absurd (ground arith)
      | inr (wallet, e) ↦
          let charged =
            after (debit wallet.id (pos ride.total_fare) ride_payment (some ride.id)) w.bank in
          grind (
            int_laws,
            debit-Moves wallet.id (pos ride.total_fare) ride_payment (some ride.id) w.bank,
            pay_earnings-funds limits ride p earnings (record w { bank = charged }) f,
          )
    ]

-- A debit that goes through takes the amount from the wallet, and touches no other.
debit_taken :
    (amount : ℤ) (c : Category) (ref : Option ℕ) (b : Bank) {wallet w : Wallet}
    → lookup wallet.id b.wallets ≡ some wallet
    → result (debit wallet.id amount c ref) b ≡ ok w
    → (after (debit wallet.id amount c ref) b).wallets
      ≡ save (record wallet { balance = wallet.balance -ℤ amount }) b.wallets
unfolding debit
debit_taken amount c ref b {wallet} l h = ground arith

-- The commission of a cash ride of a driver who has a wallet and is in no fleet: the call does not throw,
-- and either the commission is taken from the driver's wallet, while no other wallet and no debt changes,
-- or no wallet changes and the commission becomes a pending debt of the driver.
pub charge_commission_or_debt :
    (debt_id : ℕ) (ride : Ride) (p : Profile) (driver_id : ℕ) (w : Rides) {wallet : Wallet}
    → p.fleet_company_id ≡ none
    → wallet_of driver_id w.bank.wallets ≡ some wallet
    → lookup wallet.id w.bank.wallets ≡ some wallet
    → let amount = pos (or_zero ride.commission_amount) in
      let w' = after (charge_commission debt_id ride p driver_id) w in
      (result (charge_commission debt_id ride p driver_id) w ≡ ok tt)
      × (((w'.bank.wallets
              ≡ save (record wallet { balance = wallet.balance -ℤ amount }) w.bank.wallets)
            × (w'.debts ≡ w.debts))
          ⊎ ((w'.bank ≡ w.bank)
              × (w'.debts ≡ save (cash_debt debt_id driver_id ride.id amount) w.debts)))
unfolding charge_commission get_by_user_id record_debt
charge_commission_or_debt debt_id ride p driver_id w {wallet} f e l =
    let amount = pos (or_zero ride.commission_amount) in
    elim (Result-cases (result (debit wallet.id amount commission (some ride.id)) w.bank)) [
      | inl (x, paid) ↦ (
        ground arith,
        inl (
          ground (arith, debit_taken amount commission (some ride.id) w.bank l paid),
          ground arith,
        ),
      )
      | inr (x, failed) ↦ (
        ground arith,
        inr (
          ground (arith, debit-Moves wallet.id amount commission (some ride.id) w.bank),
          ground (arith, debit-Moves wallet.id amount commission (some ride.id) w.bank),
        ),
      )
    ]

-- A cash ride without commission, such as one whose fare a promo code paid in full, leaves a pending
-- debt of nothing.
pub free_cash_ride_debt :
    (debt_id : ℕ) (ride : Ride) (p : Profile) (driver_id : ℕ) (w : Rides) {wallet : Wallet}
    → p.fleet_company_id ≡ none
    → wallet_of driver_id w.bank.wallets ≡ some wallet
    → ride.commission_amount ≡ some 0
    → (after (charge_commission debt_id ride p driver_id) w).debts
      ≡ save (cash_debt debt_id driver_id ride.id (pos 0)) w.debts
unfolding charge_commission get_by_user_id record_debt debit
free_cash_ride_debt debt_id ride p driver_id w {wallet} f e z = ground arith
