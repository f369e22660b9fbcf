-- ===== src/Settings.antt =====
-- src/settings/settings.service.ts: the well-known keys and the reads of numeric settings.
-- A stored text is taken as the number that `parseFloat` reads from it, in the unit of the
-- reader (kobo for money), and as absent where that is NaN.
use ryda.Base.{Option, none, some}

-- SETTING_KEYS
pub data SettingKey : Type 0 where
  cancellation_fee referee_bonus referrer_bonus wallet_max_balance maintenance_mode : SettingKey
  max_cash_debt_before_restriction pricing_per_km pricing_minimum_fare : SettingKey
  pricing_airport_fee pricing_night_multiplier pricing_tier_minutes : SettingKey
  pricing_tier_base_fare pricing_tier_increment_fare logistics_base_fare : SettingKey
  logistics_per_km logistics_per_kg logistics_minimum_fare logistics_standard_discount : SettingKey
  loyalty_points_per_naira_spent loyalty_naira_per_point_redeemed : SettingKey
  loyalty_min_redemption_points wallet_transfer_min wallet_transfer_max_per_transaction : SettingKey
  wallet_transfer_max_daily wallet_transfer_fee risk_weight_low risk_weight_medium : SettingKey
  risk_weight_high risk_weight_critical risk_threshold_medium risk_threshold_high : SettingKey
  risk_threshold_critical risk_lookback_days sla_resolution_minutes_urgent : SettingKey
  sla_resolution_minutes_high sla_resolution_minutes_normal sla_resolution_minutes_low : SettingKey
  scheduled_ride_reminder_lead_minutes split_fare_expiry_minutes contact_company_name : SettingKey
  contact_support_email contact_support_phone contact_whatsapp contact_website : SettingKey
  contact_address contact_business_hours contact_facebook contact_instagram : SettingKey
  contact_twitter contact_tiktok commission_default_rookie commission_default_standard : SettingKey
  commission_default_silver commission_default_gold commission_default_platinum : SettingKey
  commission_default_diamond commission_default_elite commission_default_delivery_rookie :
      SettingKey
  commission_default_delivery_standard commission_default_delivery_silver : SettingKey
  commission_default_delivery_gold commission_default_delivery_platinum : SettingKey
  commission_default_delivery_diamond commission_default_delivery_elite : SettingKey

-- The settings table at the moment of a call.
abbrev pub Settings : Type 0 → Type 0
Settings A = SettingKey → Option A

-- SystemSettingsService.getNumber
abbrev pub get_number : {A : Type 0} → Settings A → SettingKey → A → A
get_number settings key fallback = elim (settings key) [ none ↦ fallback | some value ↦ value ]
