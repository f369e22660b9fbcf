-- ===== src/Rides/Frozen.antt =====
-- A driver whose wallet is frozen.
use ryda.Base.{
  ℕ, suc, ◌≡◌, true, ℤ, pos, ◌+ℤ◌, ◌≤ℤ◌, Option, none, some, arith, after, result, ok, err, lookup,
  lookup-save_self, key-lookup, wallet_frozen,
}
use ryda.Settings.{Settings}
use ryda.Trips.{Ride, ride_keyed}
use ryda.Wallets.{wallet_of, get_by_user_id, credit, debit, over_maximum}
use ryda.Wallets.Entities.{Wallet, wallet_keyed, Bank, ride_earning, commission, Category}
use ryda.Wallets.Conservation.{funds, credit-Moves}
use ryda.Drivers.Entities.{Profile}
use ryda.Rides.Payment.{pay_earnings, credit_driver_earnings}
use ryda.Rides.Served.{pay_earnings_rides}
use ryda.Rides.Entities.{Rides}

-- A frozen wallet is credited all the same, and stays frozen.
credit_frozen :
    (s : Settings ℤ) (id : ℕ) (amount : ℤ) (r : Option ℕ) (b : Bank) {w : Wallet}
    → lookup id b.wallets ≡ some w
    → pos 1 ≤ℤ amount
    → (result (credit s id amount ride_earning r) b
        ≡ ok (record w { balance = w.balance +ℤ amount }))
      × (lookup id (after (credit s id amount ride_earning r) b).wallets
          ≡ some (record w { balance = w.balance +ℤ amount }))
unfolding credit over_maximum
credit_frozen s id amount r b {w} e p = (
  ground arith,
  ground (
    arith,
    key-lookup id b.wallets e,
    lookup-save_self (record w { balance = w.balance +ℤ amount }) b.wallets,
  ),
)

debit_frozen :
    (id : ℕ) (amount : ℤ) (c : Category) (r : Option ℕ) (b : Bank) {w : Wallet}
    → lookup id b.wallets ≡ some w
    → w.is_frozen ≡ true
    → pos 1 ≤ℤ amount
    → debit id amount c r b ≡ (err wallet_frozen, b)
unfolding debit
debit_frozen id amount c r b e f p = ground arith

pay_earnings_frozen :
    (limits : Settings ℤ) (ride : Ride) (p : Profile) (earnings : ℤ) (n : ℕ) (w : Rides)
    {wallet : Wallet}
    → p.fleet_company_id ≡ none
    → wallet_of p.user_id w.bank.wallets ≡ some wallet
    → lookup wallet.id w.bank.wallets ≡ some wallet
    → wallet.is_frozen ≡ true
    → ride.commission_amount ≡ some (suc n)
    → pos 1 ≤ℤ earnings +ℤ pos (suc n)
    → (result (pay_earnings limits ride p earnings) w ≡ err wallet_frozen)
      × (funds (after (pay_earnings limits ride p earnings) w).bank
          ≡ funds w.bank +ℤ (earnings +ℤ pos (suc n)))
unfolding pay_earnings get_by_user_id
pay_earnings_frozen limits ride p earnings n w {wallet} f e l z c g =
    let gross = earnings +ℤ pos (suc n) in
    let credited = after (credit limits wallet.id gross ride_earning (some ride.id)) w.bank in
    let (r, l') = credit_frozen limits wallet.id gross (some ride.id) w.bank {w = wallet} l g in
    let refused =
      debit_frozen wallet.id (pos (suc n)) commission (some ride.id) credited
        {w = record wallet { balance = wallet.balance +ℤ gross }} l' z (omega arith) in
    (
      ground (arith, r, refused),
      ground (
        arith,
        r,
        refused,
        credit-Moves limits wallet.id gross ride_earning (some ride.id) w.bank,
      ),
    )

-- The earnings of a driver whose wallet is frozen: the gross stays credited although the commission
-- cannot be taken, and the ride stays unsettled.
credit_driver_earnings_frozen :
    (limits : Settings ℤ) (ride : Ride) (p : Profile) (earnings : ℤ) (n : ℕ) (w : Rides)
    {wallet : Wallet}
    → p.fleet_company_id ≡ none
    → wallet_of p.user_id w.bank.wallets ≡ some wallet
    → lookup wallet.id w.bank.wallets ≡ some wallet
    → wallet.is_frozen ≡ true
    → ride.commission_amount ≡ some (suc n)
    → pos 1 ≤ℤ earnings +ℤ pos (suc n)
    → let w' = after (credit_driver_earnings limits ride p earnings) w in
      (result (credit_driver_earnings limits ride p earnings) w ≡ ok ride)
      × (w'.rides ≡ w.rides)
      × (funds w'.bank ≡ funds w.bank +ℤ (earnings +ℤ pos (suc n)))
unfolding credit_driver_earnings
credit_driver_earnings_frozen limits ride p earnings n w {wallet} f e l z c g =
    let (r, m) = pay_earnings_frozen limits ride p earnings n w {wallet = wallet} f e l z c g in
    (
      ground (arith, r),
      ground (arith, r, pay_earnings_rides limits ride p earnings w),
      ground (arith, r, m),
    )
