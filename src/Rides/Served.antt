-- ===== src/Rides/Served.antt =====
-- A settlement leaves every served ride with its driver.
use ryda.Base.{
  or_throw, no_corporate_account, ℕ, ◌≡◌, true, is_some, Option, none, some, [], ◌∷◌, ◌++◌, ℤ, pos,
  ◌-ℤ◌, arith, Result, ok, err, after, ◌>>=◌, save, every-save, Option-cases, inl, inr,
}
use ryda.Settings.{Settings}
use ryda.Trips.{
  completed, PaymentMethod, card, by_wallet, cash, bank_transfer, corporate, Ride, ride_keyed,
}
use ryda.Wallets.{wallet_of, get_by_user_id, debit}
use ryda.Wallets.Entities.{ride_payment}
use ryda.Corporate.{get_account_for_employee, debit_for_ride, flag_ride_for_approval}
use ryda.Corporate.Entities.{Corporate, CorporateAccount}
use ryda.Drivers.Entities.{Profile}
use ryda.Rides.Entities.{Rides, status_changed, on_corporate}
use ryda.Rides.Settlement.{
  settle_or_revert, reverted, commission_amount_of, completed_at_commission, complete_at,
}
use ryda.Rides.Payment.{
  Context, Gateway, credit_driver_earnings, pay_earnings, charge_commission, settle_by_wallet,
  settle_by_cash, settle_by_card, settle_by_transfer, payer_of, settle_by_account,
  settle_by_corporate, settle_by,
}
use ryda.Rides.Lifecycle.{fit, AllFit}

pub pay_earnings_rides :
    (limits : Settings ℤ) (r : Ride) (p : Profile) (earnings : ℤ) (w : Rides)
    → (after (pay_earnings limits r p earnings) w).rides ≡ w.rides
unfolding pay_earnings
pay_earnings_rides limits r p earnings w = ground arith

pub earnings_fit :
    (limits : Settings ℤ) (r : Ride) (p : Profile) (earnings : ℤ) (w : Rides)
    → AllFit w
    → fit r ≡ true
    → AllFit (after (credit_driver_earnings limits r p earnings) w)
unfolding credit_driver_earnings
earnings_fit limits r p earnings w h f = ground (
  arith,
  pay_earnings_rides limits r p earnings w,
  every-save fit (record r { earnings_settled = true }) w.rides h,
)

commission_rides :
    (debt_id : ℕ) (r : Ride) (p : Profile) (driver_id : ℕ) (w : Rides)
    → (after (charge_commission debt_id r p driver_id) w).rides ≡ w.rides
unfolding charge_commission
commission_rides debt_id r p driver_id w = ground arith

account_fit :
    (limits : Settings ℤ) (approval_id : ℕ) (account : CorporateAccount) (r : Ride) (p : Profile)
    (earnings : ℤ) (w : Rides)
    → AllFit w
    → fit r ≡ true
    → AllFit (after (settle_by_account limits approval_id account r p earnings) w)
unfolding settle_by_account
account_fit limits approval_id account r p earnings w h f =
    let amount = pos r.total_fare in
    let debited = after (debit_for_ride account.id amount r.id r.passenger_id) w.corporate in
    let flagged =
      after (flag_ride_for_approval approval_id account r.id r.passenger_id amount) debited in
    ground (arith, earnings_fit limits r p earnings (record w { corporate = flagged }) h f)

finish_corporate :
    (limits : Settings ℤ) (approval_id : ℕ) (r : Ride) (p : Profile) (earnings : ℤ) (w : Rides)
    (found : Result (Option CorporateAccount) × Corporate)
    → AllFit w
    → fit r ≡ true
    → AllFit (
        after
          (on_corporate (λ _. found) >>= λ o. or_throw o no_corporate_account >>= λ account.
            settle_by_account limits approval_id account r p earnings)
          w)
finish_corporate limits approval_id r p earnings w (err _, c) h f = h
finish_corporate limits approval_id r p earnings w (ok none, c) h f = h
finish_corporate limits approval_id r p earnings w (ok (some account), c) h f =
    account_fit limits approval_id account r p earnings (record w { corporate = c }) h f

settle_fit :
    (method : PaymentMethod) (context : Context) (gateway : Gateway) (r : Ride) (p : Profile)
    (driver_id : ℕ) (earnings : ℤ) (w : Rides)
    → AllFit w
    → fit r ≡ true
    → AllFit (after (settle_by method context gateway r p driver_id earnings) w)
unfolding settle_by settle_by_wallet settle_by_cash settle_by_card settle_by_transfer
    settle_by_corporate payer_of get_by_user_id
settle_fit by_wallet context gateway r p driver_id earnings w h f =
    elim (Option-cases (wallet_of r.passenger_id w.bank.wallets)) [
      | inl missing ↦ ground arith
      | inr (wallet, e) ↦
          let paid = after (debit wallet.id (pos r.total_fare) ride_payment (some r.id)) w.bank in
          ground (arith, earnings_fit context.limits r p earnings (record w { bank = paid }) h f)
    ]
settle_fit cash context gateway r p driver_id earnings w h f = ground (
  arith,
  commission_rides context.debt_id r p driver_id w,
  every-save fit (record r { earnings_settled = true }) w.rides h,
)
settle_fit card context gateway r p driver_id earnings w h f =
    ground (arith, earnings_fit context.limits r p earnings w h f)
settle_fit bank_transfer context gateway r p driver_id earnings w h f = ground arith
settle_fit corporate context gateway r p driver_id earnings w h f =
    finish_corporate context.limits context.approval_id r p earnings w
      (get_account_for_employee r.passenger_id w.corporate) h f

revert_fit :
    (context : Context) (gateway : Gateway) (r : Ride) (p : Profile) (driver_id : ℕ) (earnings : ℤ)
    (w : Rides)
    → AllFit w
    → fit r ≡ true
    → is_some r.driver_id ≡ true
    → AllFit (after (settle_or_revert context gateway r p driver_id earnings) w)
unfolding settle_or_revert
revert_fit context gateway r p driver_id earnings w h f d =
    let settled = settle_by r.payment_method context gateway r p driver_id earnings in
    ground (
      arith,
      settle_fit r.payment_method context gateway r p driver_id earnings w h f,
      every-save fit (reverted r) (after settled w).rides,
    )

pub complete_at_fit :
    (percent : ℕ) (context : Context) (gateway : Gateway) (r : Ride) (p : Profile) (driver_id : ℕ)
    (w : Rides)
    → AllFit w
    → is_some r.driver_id ≡ true
    → AllFit (after (complete_at percent context gateway r p driver_id) w)
unfolding complete_at completed_at_commission
complete_at_fit percent context gateway r p driver_id w h d =
    let done = completed_at_commission w.bank.now percent r in
    let booked : Rides = record w {
      rides = save done w.rides;
      events = w.events ++ status_changed r.id completed ∷ [];
    } in
    revert_fit context gateway done p driver_id
      (pos r.total_fare -ℤ pos (commission_amount_of percent r.total_fare)) booked
      (every-save fit done w.rides h (ground arith)) (ground arith) d
