-- ===== src/Promotions/Tests.antt =====
-- Runs of the promotion methods, and examples of the theorems about them.
use ryda.Base.{◌≡◌, refl, true, false, none, some, [], ◌∷◌, pos, arith, after}
use ryda.Users.{User}
use ryda.Promotions.{compute_discount, redeem, grant_referral_bonus}
use ryda.Promotions.Entities.{Promotion, percentage, Promotions}
use ryda.Promotions.Limits.{Within, redeem-Within}
use ryda.Promotions.Referrals.{grant_referral_bonus_once}

-- The code AB, 10 percent and at most 500 naira, for two rides of each user.
abbrev ten_off : Promotion
ten_off = record {
  id = 1;
  code = 65 ∷ 66 ∷ [];
  type = percentage;
  value = 1000;
  max_discount_amount = some 50000;
  min_fare_amount = none;
  usage_limit_total = some 100;
  usage_limit_per_user = 2;
  times_redeemed = 0;
  valid_from = none;
  valid_until = some 90;
  is_active = true;
}

abbrev eve : User
eve = record {
  id = 10;
  phone = none;
  email = none;
  is_phone_verified = true;
  referral_code = 1;
  referred_by_code = none;
  rating = 500;
  rating_count = 0;
}

abbrev fay : User
fay = record eve { id = 20; referral_code = 2; referred_by_code = some 1 }

abbrev shop : Promotions
shop = record {
  promotions = ten_off ∷ [];
  redemptions = [];
  grants = [];
  users = eve ∷ fay ∷ [];
  devices = [];
  flags = [];
  bank = record {
    wallets =
        record { id = 1; user_id = 10; balance = pos 0; is_frozen = false }
        ∷ record { id = 2; user_id = 20; balance = pos 0; is_frozen = false }
        ∷ [];
    transactions = [];
    events = [];
    now = 50;
  };
}

capped : compute_discount ten_off 800000 ≡ 50000
unfolding compute_discount
capped = refl

redeem-Within_example : Within 1 (after (redeem 1 (97 ∷ 98 ∷ []) 20 7 300000) shop)
redeem-Within_example =
    redeem-Within 1 (97 ∷ 98 ∷ []) 20 7 300000 1 shop (refl, tt)
      (refl, refl, λ u. omega arith, λ limit e. omega arith)

grant_referral_bonus_once_example :
    let p' = after (grant_referral_bonus (λ _. none) (λ _. none) 1 20) shop in
    after (grant_referral_bonus (λ _. none) (λ _. none) 2 20) p' ≡ p'
grant_referral_bonus_once_example =
    grant_referral_bonus_once (λ _. none) (λ _. none) (λ _. none) (λ _. none) 1 2 20 shop
