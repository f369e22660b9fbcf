-- ===== src/Promotions.antt =====
-- src/promotions/promotions.service.ts: promo codes with their limits, cashback, and the bonus of a
-- referral. The clock is that of the wallets; generated ids are arguments.
pub mod Entities
pub mod Limits
pub mod Referrals
mod Tests
use ryda.Base.{
  ℕ, suc, ◌+◌, ◌-◌, ◌*◌, ◌/◌, ◌==◌, min, ltb, leb, Bool, true, false, not, ◌&&◌, ◌||◌, is_some,
  Option, none, some, List, [], ◌∷◌, ◌++◌, map, if◌then◌else◌, pos, length, keep, Action, ◌>>=◌,
  ◌>>◌, pure, gets, or_throw, throw_if, modify, lookup, save, find_first, promo_not_found,
  promo_inactive, promo_not_started, promo_expired, below_minimum_fare, promo_used_up,
  already_used_promo, code_exists, user_not_found,
}
use ryda.Settings.{Settings, get_number, referee_bonus, referrer_bonus}
use ryda.Users.{User, user_keyed, find_by_referral_code}
use ryda.Fraud.{Fresh, check_promo_redemption_pattern, check_referral_abuse}
use ryda.Wallets.{get_by_user_id, credit}
use ryda.Wallets.Entities.{cashback, referral}
use ryda.Base.{ℤ}
use Entities.{
  is_fixed, is_cashback, Promotion, promotion_keyed, Redemption, ReferralGrant, Promotions, on_bank,
}

abbrev pub same_code : List ℕ → List ℕ → Bool
same_code [] [] = true
same_code (a ∷ xs) (b ∷ ys) = a == b && same_code xs ys
same_code _ _ = false

-- `code.toUpperCase()`, on the letters a to z
abbrev pub upper : ℕ → ℕ
upper c = if leb 97 c && leb c 122 then c - 32 else c

unfoldable pub to_upper : List ℕ → List ℕ
to_upper = map upper

abbrev pub promotion_of : List ℕ → List Promotion → Option Promotion
promotion_of code = find_first (λ p. same_code p.code code)

-- createPromotion, of a row that has its fields from the request
unfoldable pub create_promotion : Promotion → Action Promotions Promotion
create_promotion promotion = do
  existing ← gets (λ s. promotion_of promotion.code s.promotions)
  throw_if (is_some existing) code_exists
  modify (λ s. record s { promotions = save promotion s.promotions })
  pure promotion

-- setActive
unfoldable pub set_active : ℕ → Bool → Action Promotions Promotion
set_active id is_active = do
  promotion ← or_throw (← gets (λ s. lookup id s.promotions)) promo_not_found
  let saved : Promotion = record promotion { is_active = is_active }
  modify (λ s. record s { promotions = save saved s.promotions })
  pure saved

-- `Math.round(discount * 100) / 100` of a percentage of a fare, in kobo
abbrev pub percent_of : ℕ → ℕ → ℕ
percent_of percent amount = (2 * (amount * percent) + 10000) / 20000

-- computeDiscount; the cap is whole kobo, so rounding before it is rounding after it.
unfoldable pub compute_discount : Promotion → ℕ → ℕ
compute_discount promotion fare =
    let full =
      if is_fixed promotion.type then promotion.value else percent_of promotion.value fare in
    let capped : ℕ = elim promotion.max_discount_amount [
      | none ↦ full
      | some limit ↦ min full limit
    ] in
    min capped fare

-- `x && test(x)`, for a column that may be empty
abbrev pub holds : Option ℕ → (ℕ → Bool) → Bool
holds none test = false
holds (some x) test = test x

-- `promotion.usageLimitTotal && promotion.timesRedeemed >= promotion.usageLimitTotal`: a limit of 0 is none
abbrev pub used_up : Promotion → Bool
used_up promotion =
    holds promotion.usage_limit_total
      (λ limit. not (limit == 0) && leb limit promotion.times_redeemed)

abbrev pub by_user : ℕ → ℕ → Redemption → Bool
by_user promotion_id user_id r = r.promotion_id == promotion_id && r.user_id == user_id

-- PromoPreview
pub record Preview : Type 0 where
  pub promotion : Promotion
  pub discount_amount : ℕ
  pub applies_upfront : Bool

-- The tests of `validate` on the promotion that has the code.
unfoldable pub check_promotion : Promotion → ℕ → ℕ → Action Promotions (Unit {0})
check_promotion promotion user_id fare = do
  throw_if (not promotion.is_active) promo_inactive
  now ← gets (λ s. s.bank.now)
  throw_if (holds promotion.valid_from (λ from. ltb now from)) promo_not_started
  throw_if (holds promotion.valid_until (λ until. ltb until now)) promo_expired
  throw_if (holds promotion.min_fare_amount (λ least. ltb fare least)) below_minimum_fare
  throw_if (used_up promotion) promo_used_up
  used ← gets (λ s. length (keep (by_user promotion.id user_id) s.redemptions))
  throw_if (leb promotion.usage_limit_per_user used) already_used_promo

-- validate
unfoldable pub validate : List ℕ → ℕ → ℕ → Action Promotions Preview
validate code user_id fare = do
  promotion ← or_throw (← gets (λ s. promotion_of (to_upper code) s.promotions)) promo_not_found
  check_promotion promotion user_id fare
  pure record {
    promotion = promotion;
    discount_amount = compute_discount promotion fare;
    applies_upfront = not (is_cashback promotion.type);
  }

-- `increment({ id }, 'timesRedeemed', 1)`
abbrev pub bump : ℕ → Promotion → Promotion
bump id p = if p.id == id then record p { times_redeemed = suc p.times_redeemed } else p

-- The redemptions of a user in the last 24 hours.
abbrev pub recent : ℕ → ℕ → List Redemption → ℕ
recent now user_id rs =
    length (keep (λ r. r.user_id == user_id && ltb now (r.redeemed_at + 24 * 60 * 60 * 1000)) rs)

-- The writes of `redeem`: the redemption, the counter and a flag.
unfoldable pub write_redemption : ℕ → Preview → ℕ → ℕ → Promotions → Promotions
write_redemption flag_id preview user_id ride_id s =
    let redemption : Redemption = record {
      promotion_id = preview.promotion.id;
      user_id = user_id;
      ride_id = ride_id;
      discount_amount = preview.discount_amount;
      redeemed_at = s.bank.now;
    } in
    let redemptions = s.redemptions ++ redemption ∷ [] in
    let fresh : Fresh = record { now = s.bank.now; id = flag_id } in
    record s {
      redemptions = redemptions;
      promotions = map (bump preview.promotion.id) s.promotions;
      flags =
          check_promo_redemption_pattern fresh user_id (recent s.bank.now user_id redemptions)
            s.flags;
    }

-- redeem
unfoldable pub redeem : ℕ → List ℕ → ℕ → ℕ → ℕ → Action Promotions Preview
redeem flag_id code user_id ride_id fare = do
  preview ← validate code user_id fare
  modify (write_redemption flag_id preview user_id ride_id)
  pure preview

-- settleCashbackForRide
unfoldable pub settle_cashback_for_ride : Settings ℤ → ℕ → ℕ → Action Promotions (Unit {0})
settle_cashback_for_ride settings ride_id passenger_id s =
    elim (find_first (λ r. r.ride_id == ride_id) s.redemptions) [
      | none ↦ pure tt s
      | some redemption ↦ elim (lookup redemption.promotion_id s.promotions) [
        | none ↦ pure tt s
        | some promotion ↦
            if is_cashback promotion.type
            then on_bank
                (get_by_user_id passenger_id >>= λ wallet.
                  credit settings wallet.id (pos redemption.discount_amount) cashback (some ride_id)
                  >> pure tt)
                s
            else pure tt s
      ]
    ]

-- The payment of a bonus into the wallet of a user.
unfoldable pub pay_bonus : Settings ℤ → ℕ → ℕ → Action Promotions (Unit {0})
pay_bonus settings user_id bonus = do
  wallet ← on_bank (get_by_user_id user_id)
  on_bank (credit settings wallet.id (pos bonus) referral none)
  pure tt

-- The flag and the grant, which are written before the payments.
unfoldable pub note_grant : Settings ℕ → ℕ → ℕ → ℕ → Promotions → Promotions
note_grant settings flag_id referee_id referrer_id s =
    let grant : ReferralGrant = record {
      referrer_user_id = referrer_id;
      referee_user_id = referee_id;
      referrer_bonus = get_number settings referrer_bonus 50000;
      referee_bonus = get_number settings referee_bonus 50000;
    } in
    record s {
      flags =
          check_referral_abuse (record { now = s.bank.now; id = flag_id }) s.devices referrer_id
            referee_id s.flags;
      grants = s.grants ++ grant ∷ [];
    }

-- The flag, the grant and the two payments, for a referee and a referrer.
unfoldable pub grant_to : Settings ℤ → Settings ℕ → ℕ → ℕ → ℕ → Action Promotions (Unit {0})
grant_to limits settings flag_id referee_id referrer_id = do
  modify (note_grant settings flag_id referee_id referrer_id)
  pay_bonus limits referee_id (get_number settings referee_bonus 50000)
  pay_bonus limits referrer_id (get_number settings referrer_bonus 50000)

-- grantReferralBonusIfEligible
unfoldable pub grant_referral_bonus : Settings ℤ → Settings ℕ → ℕ → ℕ → Action Promotions (Unit {0})
grant_referral_bonus limits settings flag_id referee_id s = elim (lookup referee_id s.users) [
  | none ↦ or_throw none user_not_found s
  | some referee ↦ elim referee.referred_by_code [
    | none ↦ pure tt s
    | some code ↦
        if is_some (find_first (λ g. g.referee_user_id == referee_id) s.grants)
        then pure tt s
        else elim (find_by_referral_code code s.users) [
          | none ↦ pure tt s
          | some referrer ↦ grant_to limits settings flag_id referee_id referrer.id s
        ]
  ]
]
