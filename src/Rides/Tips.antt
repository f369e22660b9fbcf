-- ===== src/Rides/Tips.antt =====
-- A tip goes from the passenger to the driver, once.
use ryda.Base.{
  ℕ, ◌==◌, ◌≡◌, true, some, ℤ, pos, arith, int_laws, Result, ok, err, after, result, ◌>>=◌, lookup,
  lookup-save_self, key-lookup, Option-cases, inl, inr, Distinct, find_first-lookup, already_tipped,
  zero, ◌<◌,
}
use ryda.Settings.{Settings}
use ryda.Trips.{Ride, ride_keyed}
use ryda.Wallets.{wallet_of, get_by_user_id, debit}
use ryda.Wallets.Entities.{Wallet, wallet_keyed, tip_payment, tip_received}
use ryda.Wallets.Balances.{credit_succeeds, debit_keeps}
use ryda.Wallets.Conservation.{funds, credit-Moves, debit-Moves}
use ryda.Rides.{check_tip, pay_tip, add_tip, is_completed}
use ryda.Rides.Entities.{Rides}

-- Paying a tip keeps the sum of all balances, however it ends.
pub pay_tip-funds :
    (limits : Settings ℤ) (ride : Ride) (driver_id amount : ℕ) (w : Rides)
    → Distinct w.bank.wallets
    → funds (after (pay_tip limits ride driver_id amount) w).bank ≡ funds w.bank
unfolding pay_tip get_by_user_id
pay_tip-funds limits ride driver_id amount w distinct =
    elim (Option-cases (wallet_of ride.passenger_id w.bank.wallets)) [
      | inl missing ↦ ground arith
      | inr (own, eo) ↦ elim (Option-cases (wallet_of driver_id w.bank.wallets)) [
        | inl missing ↦ ground arith
        | inr (theirs, et) ↦
            let b' = after (debit own.id (pos amount) tip_payment (some ride.id)) w.bank in
            grind (
              int_laws,
              debit-Moves own.id (pos amount) tip_payment (some ride.id) w.bank,
              credit-Moves limits theirs.id (pos amount) tip_received (some ride.id) b',
              find_first-lookup (λ (w : Wallet). w.user_id == driver_id) w.bank.wallets distinct et,
              debit_keeps own.id theirs.id (pos amount) tip_payment (some ride.id) w.bank,
              λ (w : Wallet).
                  credit_succeeds limits theirs.id (pos amount) tip_received (some ride.id) b'
                    {w = w},
            )
      ]
    ]

-- What the guards of a tip hand over: a completed ride of the table that has no tip yet.
abbrev Due : ℕ → ℕ → ℕ → Rides → Result (Ride × ℕ) × Rides → Type 0
Due ride_id passenger_id amount w (err _, w') = w' ≡ w
Due ride_id passenger_id amount w (ok (ride, driver_id), w') =
    (w' ≡ w)
    × (lookup ride_id w.rides ≡ some ride)
    × (ride.passenger_id ≡ passenger_id)
    × (is_completed ride.status ≡ true)
    × (ride.driver_id ≡ some driver_id)
    × (zero < amount)

check_tip-Due :
    (ride_id passenger_id amount : ℕ) (w : Rides)
    → Due ride_id passenger_id amount w (check_tip ride_id passenger_id amount w)
unfolding check_tip
check_tip-Due ride_id passenger_id amount w = ground arith

finish_funds :
    (limits : Settings ℤ) (ride_id passenger_id amount : ℕ) (w : Rides)
    (due : Result (Ride × ℕ) × Rides)
    → Distinct w.bank.wallets
    → Due ride_id passenger_id amount w due
    → funds (after ((λ _. due) >>= λ d. pay_tip limits d.0 d.1 amount) w).bank ≡ funds w.bank
finish_funds limits ride_id passenger_id amount w (err _, w') distinct h = rw h
finish_funds limits ride_id passenger_id amount w (ok (ride, driver_id), w') distinct h =
    grind (arith, h, pay_tip-funds limits ride driver_id amount w distinct)

-- A tip keeps the sum of all wallet balances however it ends, although its debit and its credit are two
-- transactions: once the debit goes through, the credit cannot fail. No two wallets have the same id.
add_tip-funds :
    (limits : Settings ℤ) (ride_id passenger_id amount : ℕ) (w : Rides)
    → Distinct w.bank.wallets
    → funds (after (add_tip limits ride_id passenger_id amount) w).bank ≡ funds w.bank
unfolding add_tip
add_tip-funds limits ride_id passenger_id amount w distinct =
    finish_funds limits ride_id passenger_id amount w (check_tip ride_id passenger_id amount w)
      distinct (check_tip-Due ride_id passenger_id amount w)

pay_tip_tipped :
    (limits : Settings ℤ) (ride : Ride) (driver_id amount : ℕ) (w : Rides) {r : Ride}
    → result (pay_tip limits ride driver_id amount) w ≡ ok r
    → lookup ride.id (after (pay_tip limits ride driver_id amount) w).rides
      ≡ some (record ride { tip_amount = amount })
unfolding pay_tip
pay_tip_tipped limits ride driver_id amount w h =
    ground (arith, lookup-save_self (record ride { tip_amount = amount }) w.rides)

tipped_refused :
    (ride_id passenger_id more driver_id : ℕ) (w : Rides) {r : Ride}
    → zero < more
    → lookup ride_id w.rides ≡ some r
    → r.passenger_id ≡ passenger_id
    → is_completed r.status ≡ true
    → r.driver_id ≡ some driver_id
    → zero < r.tip_amount
    → check_tip ride_id passenger_id more w ≡ (err already_tipped, w)
unfolding check_tip
tipped_refused ride_id passenger_id more driver_id w m e p c d t = ground arith

finish_once :
    (limits : Settings ℤ) (ride_id passenger_id amount more : ℕ) (w : Rides)
    (due : Result (Ride × ℕ) × Rides) {r : Ride}
    → zero < more
    → Due ride_id passenger_id amount w due
    → let tipped = ((λ _. due) >>= λ d. pay_tip limits d.0 d.1 amount) w in
      tipped.0 ≡ ok r
      → check_tip ride_id passenger_id more (tipped.1) ≡ (err already_tipped, tipped.1)
finish_once limits ride_id passenger_id amount more w (err _, w') m h k = absurd (ground arith)
finish_once limits ride_id passenger_id amount more w (ok (ride, driver_id), w') {r} m h k = grind (
  arith,
  h,
  key-lookup ride_id w.rides h.1,
  pay_tip_tipped limits ride driver_id amount w' {r = r} k,
  tipped_refused ride_id passenger_id more driver_id
      (after (pay_tip limits ride driver_id amount) w') {r = record ride { tip_amount = amount }} m,
)

-- A ride is tipped once: after a tip went through, every further one is refused.
add_tip_once :
    (limits limits' : Settings ℤ) (ride_id passenger_id amount more : ℕ) (w : Rides) {r : Ride}
    → zero < more
    → result (add_tip limits ride_id passenger_id amount) w ≡ ok r
    → result
        (add_tip limits' ride_id passenger_id more)
        (after (add_tip limits ride_id passenger_id amount) w)
      ≡ err already_tipped
unfolding add_tip
add_tip_once limits limits' ride_id passenger_id amount more w {r} m h = ground (
  arith,
  finish_once limits ride_id passenger_id amount more w (check_tip ride_id passenger_id amount w)
      {r = r} m (check_tip-Due ride_id passenger_id amount w) h,
)
