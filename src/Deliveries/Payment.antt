-- ===== src/Deliveries/Payment.antt =====
-- src/logistics/logistics.service.ts: how a delivery is paid, by its payment method.
use ryda.Base.{
  ℕ, ltb, Bool, true, not, Option, none, some, List, ℤ, pos, ◌+ℤ◌, if◌then◌else◌, Action, ◌>>=◌,
  ◌>>◌, pure, gets, or_throw, throw_if, catch, lookup, is_some, no_email, card_failed,
  no_corporate_account, user_not_found,
}
use ryda.Settings.{Settings}
use ryda.Trips.{PaymentMethod, card, by_wallet, cash, bank_transfer, corporate}
use ryda.Wallets.{get_by_user_id, credit, debit}
use ryda.Wallets.Entities.{delivery_payment, delivery_earning, commission}
use ryda.Fleet.{credit_for_ride_earning, debit_fleet_commission}
use ryda.Corporate.{get_account_for_employee, debit_for_ride}
use ryda.Debts.{record_debt, from_delivery}
use ryda.Commission.{Rule}
use ryda.Drivers.Entities.{Profile}
use ryda.Users.{user_keyed}
use ryda.Payments.{Fresh, Answer, charge_saved_card}
use ryda.Payments.Entities.{is_success}
use ryda.Deliveries.{store}
use ryda.Deliveries.Entities.{
  Order, Deliveries, on_payments, on_bank, on_fleets, on_corporate, on_debts,
}

-- The settings, the rules of commission, the answers of the payment provider, and the ids that the
-- database generates for new rows.
pub record Context : Type 0 where
  pub limits : Settings ℤ
  pub settings : Settings ℕ
  pub rules : List Rule
  pub is_configured : Bool
  pub answers : ℕ → Answer
  pub payment : Fresh
  pub shortfall_id : ℕ
  pub debt_id : ℕ
  pub log_id : ℕ

-- `parseFloat(order.commissionAmount ?? '0')`
abbrev pub or_zero : Option ℕ → ℕ
or_zero none = 0
or_zero (some n) = n

-- The gross credit and the commission out of it, of a fleet or of the driver
unfoldable pub pay_earnings : Settings ℤ → Order → Profile → ℤ → Action Deliveries (Unit {0})
pay_earnings limits order profile earnings =
    let amount = or_zero order.commission_amount in
    elim profile.fleet_company_id [
      | some fleet ↦
          on_fleets (credit_for_ride_earning fleet (earnings +ℤ pos amount) order.id)
          >> (if ltb 0 amount
              then on_fleets (debit_fleet_commission fleet (pos amount) order.id)
              else pure tt)
      | none ↦ on_bank (get_by_user_id profile.user_id) >>= λ wallet.
          on_bank
            (credit limits wallet.id (earnings +ℤ pos amount) delivery_earning (some order.id))
          >> (if ltb 0 amount
              then on_bank (debit wallet.id (pos amount) commission (some order.id)) >> pure tt
              else pure tt)
    ]

-- The save that ends a settlement
abbrev pub settle : Order → Action Deliveries Order
settle order =
    let settled : Order = record order { earnings_settled = true } in store settled >> pure settled

-- creditDriverEarnings
unfoldable pub credit_driver_earnings : Settings ℤ → Order → Profile → ℤ → Action Deliveries Order
credit_driver_earnings limits order profile earnings =
    pay_earnings limits order profile earnings >> settle order

-- The fare out of the customer's wallet
unfoldable pub charge_wallet : Order → Action Deliveries (Unit {0})
charge_wallet order = do
  wallet ← on_bank (get_by_user_id order.customer_id)
  on_bank (debit wallet.id (pos order.total_fare) delivery_payment (some order.id))
  pure tt

-- The commission on a fare that was paid in cash; a debt where it cannot be taken now.
unfoldable pub charge_commission : ℕ → Order → Profile → ℕ → Action Deliveries (Unit {0})
charge_commission debt_id order profile driver_id =
    let amount = pos (or_zero order.commission_amount) in
    elim profile.fleet_company_id [
      | some fleet ↦ catch (on_fleets (debit_fleet_commission fleet amount order.id)) (λ _.
          on_debts (record_debt debt_id none (some fleet) order.id amount from_delivery) >> pure tt)
      | none ↦ on_bank (get_by_user_id driver_id) >>= λ wallet.
          catch (on_bank (debit wallet.id amount commission (some order.id)) >> pure tt) (λ _.
            on_debts (record_debt debt_id (some driver_id) none order.id amount from_delivery)
            >> pure tt)
    ]

-- A charge of the saved card of the customer, who needs an email
unfoldable pub charge_card : Context → Order → Action Deliveries (Unit {0})
charge_card context order = do
  customer ← or_throw (← gets (λ d. lookup order.customer_id d.users)) user_not_found
  throw_if (not (is_some customer.email)) no_email
  payment ← on_payments (
      charge_saved_card context.is_configured context.answers context.payment order.id
        order.customer_id order.total_fare)
  throw_if (not (is_success payment.status)) card_failed

-- The fare out of the budget of the customer's employer
unfoldable pub charge_employer : Order → Action Deliveries (Unit {0})
charge_employer order = do
  found ← on_corporate (get_account_for_employee order.customer_id)
  account ← or_throw found no_corporate_account
  on_corporate (debit_for_ride account.id (pos order.total_fare) order.id order.customer_id)
  pure tt

-- The payment in markDelivered, by the payment method; there is no branch for a bank transfer.
unfoldable pub pay_by : PaymentMethod → Context → Order → Profile → ℕ → ℤ → Action Deliveries Order
pay_by by_wallet context order profile driver_id earnings =
    charge_wallet order >> credit_driver_earnings context.limits order profile earnings
pay_by cash context order profile driver_id earnings =
    charge_commission context.debt_id order profile driver_id >> settle order
pay_by card context order profile driver_id earnings =
    charge_card context order >> credit_driver_earnings context.limits order profile earnings
pay_by corporate context order profile driver_id earnings =
    charge_employer order >> credit_driver_earnings context.limits order profile earnings
pay_by bank_transfer context order profile driver_id earnings = pure order
