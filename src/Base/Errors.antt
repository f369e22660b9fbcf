-- ===== src/Base/Errors.antt =====
-- The exceptions that the services throw, one constructor for each message.
pub data Error : Type 0 where
  -- src/wallets/wallets.service.ts
  amount_not_positive wallet_not_found balance_over_maximum wallet_frozen : Error
  insufficient_balance own_wallet sender_frozen recipient_frozen : Error
  -- src/reconciliation/ledger-audit.service.ts
  account_not_found discrepancy_not_found already_resolved : Error
  -- src/otp/otp.service.ts
  invalid_or_expired_otp too_many_attempts : Error
  -- src/fraud/fraud.service.ts
  flag_not_found : Error
  -- src/users/users.service.ts
  user_not_found : Error
  -- src/wallets/withdrawals.service.ts
  phone_not_verified withdrawal_pending below_minimum withdrawal_blocked not_your_account : Error
  payouts_not_configured request_not_found not_your_request request_settled request_expired : Error
  no_phone bank_account_not_found withdrawal_refunded : Error
  -- src/wallets/wallet-transfers.service.ts
  transfer_pending no_account_found transfer_to_self above_maximum above_daily_limit : Error
  -- src/drivers/drivers.service.ts
  driver_not_found driver_not_approved active_trip documents_not_approved no_vehicle : Error
  vehicle_not_found vehicle_not_active not_approved_for_rides not_approved_for_deliveries : Error
  driver_unavailable rating_out_of_range : Error
  -- src/split-fare/split-fare.service.ts
  ride_not_found not_the_booker already_split no_participants amounts_mismatch : Error
  amounts_exceed_total no_account_for_phone split_with_self split_not_found no_split_access : Error
  not_a_participant already_paid split_expired : Error
  -- src/reconciliation/reconciliation.service.ts
  debt_not_found debt_not_pending : Error
  -- src/fleet/fleet.service.ts
  already_in_fleet fleet_not_found not_in_fleet not_fleet_staff : Error
  not_fleet_owner in_another_fleet not_your_fleet fleet_wallet_not_found : Error
  fleet_amount_not_positive insufficient_fleet_balance : Error
  -- src/corporate/corporate.service.ts
  corporate_account_not_found employee_exists employee_not_found approval_not_found : Error
  already_reviewed corporate_amount_not_positive corporate_inactive insufficient_corporate_budget :
      Error
  -- src/promotions/promotions.service.ts
  promo_not_found promo_inactive promo_not_started promo_expired : Error
  below_minimum_fare promo_used_up already_used_promo code_exists : Error
  -- src/dispatch/dispatch.service.ts
  cannot_redispatch : Error
  -- src/passengers/passengers.service.ts
  passenger_blacklisted : Error
  -- src/rides/rides.service.ts
  not_your_ride completed_undeletable pin_verified too_many_pins : Error
  tip_not_positive tip_too_early no_driver_to_tip already_tipped : Error
  not_acceptable offered_to_another offer_gone driver_offline : Error
  no_active_vehicle vehicle_mismatch too_much_debt just_cancelled : Error
  just_taken not_arrivable not_startable not_in_progress : Error
  no_email card_failed no_corporate_account not_cancellable : Error
  not_completed already_rated no_driver_to_rate : Error
  -- src/rides/rides.service.ts
  not_the_driver not_the_passenger : Error
  -- src/rides/rides.service.ts
  transfer_failed : Error
  -- src/payments/payments.service.ts
  payment_not_found not_refundable simulated_payment refund_in_progress : Error
  nothing_to_refund refund_exceeds refund_declined gateway_unreachable : Error
  gateway_not_configured below_minimum_top_up duplicate_top_up no_saved_card : Error
  card_not_found : Error
  -- src/logistics/logistics.service.ts
  delivery_not_found not_your_delivery delivery_not_acceptable delivery_taken : Error
  vehicle_too_small not_accepted_yet not_at_pickup not_picked_up : Error
  photo_required signature_required cod_amount_required delivery_not_cancellable delivery_changed :
      Error
  pool_claim_race : Error  -- src/pooling
  no_cod_shortfall not_delivered not_selectable courier_unavailable : Error
