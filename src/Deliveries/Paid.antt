-- ===== src/Deliveries/Paid.antt =====
-- Whatever a payment does, the delivery that is paid stays where it is, or is settled.
use ryda.Base.{
  ℕ, ◌≡◌, refl, true, some, ℤ, arith, after, Result, ok, err, ◌>>◌, lookup, Option-cases, inl, inr,
}
use ryda.Settings.{Settings}
use ryda.Trips.{PaymentMethod, card, by_wallet, cash, bank_transfer, corporate}
use ryda.Drivers.Entities.{Profile}
use ryda.Users.{user_keyed}
use ryda.Deliveries.Payment.{
  Context, pay_earnings, settle, credit_driver_earnings, charge_wallet, charge_commission,
  charge_card, charge_employer, pay_by,
}
use ryda.Deliveries.Entities.{Status, Order, order_keyed, Deliveries}
use ryda.Deliveries.Progress.{From, save-From, same-From}

-- What is done before a payment is settled leaves the orders.
pay_earnings_orders :
    (limits : Settings ℤ) (o : Order) (p : Profile) (earnings : ℤ) (d : Deliveries)
    → (after (pay_earnings limits o p earnings) d).orders ≡ d.orders
unfolding pay_earnings
pay_earnings_orders limits o p earnings d = elim (Option-cases p.fleet_company_id) [
  | inl own ↦ ground arith
  | inr (fleet, e) ↦ ground arith
]

settled-From :
    (id : ℕ) (s : Status) (o : Order) (d : Deliveries) (paid : Result (Unit {0}) × Deliveries)
    → paid.1.orders ≡ d.orders
    → lookup o.id d.orders ≡ some o
    → From id s d
    → From id s (after ((λ _. paid) >> settle o) d)
settled-From id s o d (err _, d') e l h = same-From id s d d' e h
settled-From id s o d (ok _, d') e l h =
    save-From id s o (record o { earnings_settled = true }) d' (after (settle o) d') refl (rw e l)
      (ground arith) refl (same-From id s d d' e h)

credited-From :
    (id : ℕ) (s : Status) (limits : Settings ℤ) (o : Order) (p : Profile) (earnings : ℤ)
    (d : Deliveries) (charged : Result (Unit {0}) × Deliveries)
    → charged.1.orders ≡ d.orders
    → lookup o.id d.orders ≡ some o
    → From id s d
    → From id s (after ((λ _. charged) >> credit_driver_earnings limits o p earnings) d)
unfolding credit_driver_earnings
credited-From id s limits o p earnings d (err _, d') e l h = same-From id s d d' e h
credited-From id s limits o p earnings d (ok _, d') e l h =
    settled-From id s o d' (pay_earnings limits o p earnings d')
      (pay_earnings_orders limits o p earnings d') (rw e l) (same-From id s d d' e h)

charge_wallet_orders : (o : Order) (d : Deliveries) → (after (charge_wallet o) d).orders ≡ d.orders
unfolding charge_wallet
charge_wallet_orders o d = ground arith

charge_card_orders :
    (context : Context) (o : Order) (d : Deliveries)
    → (after (charge_card context o) d).orders ≡ d.orders
unfolding charge_card
charge_card_orders context o d = elim (Option-cases (lookup o.customer_id d.users)) [
  | inl missing ↦ ground arith
  | inr (u, e) ↦ ground arith
]

charge_employer_orders :
    (o : Order) (d : Deliveries) → (after (charge_employer o) d).orders ≡ d.orders
unfolding charge_employer
charge_employer_orders o d = ground arith

charge_commission_orders :
    (debt_id : ℕ) (o : Order) (p : Profile) (driver_id : ℕ) (d : Deliveries)
    → (after (charge_commission debt_id o p driver_id) d).orders ≡ d.orders
unfolding charge_commission
charge_commission_orders debt_id o p driver_id d = elim (Option-cases p.fleet_company_id) [
  | inl own ↦ ground arith
  | inr (fleet, e) ↦ ground arith
]

pub pay_by-From :
    (id : ℕ) (s : Status) (m : PaymentMethod) (context : Context) (o : Order) (p : Profile)
    (driver_id : ℕ) (earnings : ℤ) (d : Deliveries)
    → lookup o.id d.orders ≡ some o
    → From id s d
    → From id s (after (pay_by m context o p driver_id earnings) d)
unfolding pay_by
pay_by-From id s by_wallet context o p driver_id earnings d l h =
    credited-From id s context.limits o p earnings d (charge_wallet o d) (charge_wallet_orders o d)
      l h
pay_by-From id s cash context o p driver_id earnings d l h =
    settled-From id s o d (charge_commission context.debt_id o p driver_id d)
      (charge_commission_orders context.debt_id o p driver_id d) l h
pay_by-From id s card context o p driver_id earnings d l h =
    credited-From id s context.limits o p earnings d (charge_card context o d)
      (charge_card_orders context o d) l h
pay_by-From id s corporate context o p driver_id earnings d l h =
    credited-From id s context.limits o p earnings d (charge_employer o d)
      (charge_employer_orders o d) l h
pay_by-From id s bank_transfer context o p driver_id earnings d l h = h
