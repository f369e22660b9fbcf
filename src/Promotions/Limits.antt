-- ===== src/Promotions/Limits.antt =====
-- What a promo code gives, and how often it can be redeemed.
use ryda.Base.{
  ℕ, suc, ◌+◌, ◌≤◌, ◌<◌, ◌==◌, leb, ◌≡◌, refl, Bool, true, false, not, ◌&&◌, Option, none, some,
  List, [], ◌∷◌, ◌++◌, map, if◌then◌else◌, arith, after, result, ok, lookup, keep, count-snoc,
  length, Option-cases, inl, inr, Distinct, find_first-lookup, find_first-holds, every,
}
use ryda.Promotions.{
  compute_discount, used_up, by_user, Preview, check_promotion, validate, write_redemption, redeem,
  bump, promotion_of, to_upper, same_code, upper,
}
use ryda.Promotions.Entities.{Promotion, promotion_keyed, Redemption, Promotions}

-- A discount never exceeds the fare, nor the cap of the promotion.
pub compute_discount-bounds :
    (p : Promotion) (fare : ℕ)
    → (compute_discount p fare ≤ fare)
      × ((limit : ℕ) → p.max_discount_amount ≡ some limit → compute_discount p fare ≤ limit)
unfolding compute_discount
compute_discount-bounds p fare = (ground arith, λ limit e. ground arith)

abbrev of_promotion : ℕ → Redemption → Bool
of_promotion id r = r.promotion_id == id

-- The books of a promotion: its counter is the number of its redemptions, and both limits hold.
abbrev Bounded : ℕ → Option Promotion → List Redemption → Type 0
Bounded id none rs = Unit
Bounded id (some p) rs =
    (p.id ≡ id)
    × (p.times_redeemed ≡ length (keep (of_promotion id) rs))
    × ((user_id : ℕ) → length (keep (by_user id user_id) rs) ≤ p.usage_limit_per_user)
    × ((limit : ℕ) → p.usage_limit_total ≡ some (suc limit) → p.times_redeemed ≤ suc limit)

abbrev pub Within : ℕ → Promotions → Type 0
Within id s = Bounded id (lookup id s.promotions) s.redemptions

abbrev bumped : ℕ → Option Promotion → Option Promotion
bumped id none = none
bumped id (some p) = some (bump id p)

lookup-bump :
    (id j : ℕ) (ps : List Promotion) → lookup j (map (bump id) ps) ≡ bumped id (lookup j ps)
lookup-bump id j [] = refl
lookup-bump id j (q ∷ ps) = ground (arith, lookup-bump id j ps)

-- A promotion below its limits for a user.
abbrev Below : ℕ → Promotion → List Redemption → Type 0
Below user_id p rs =
    (used_up p ≡ false) × (length (keep (by_user p.id user_id) rs) < p.usage_limit_per_user)

check_promotion-Below :
    (p : Promotion) (user_id fare : ℕ) (s : Promotions)
    → (after (check_promotion p user_id fare) s ≡ s)
      × (result (check_promotion p user_id fare) s ≡ ok tt → Below user_id p s.redemptions)
unfolding check_promotion
check_promotion-Below p user_id fare s = ground arith

count_one_more :
    (id u : ℕ) (r : Redemption) (rs : List Redemption)
    → (length (keep (of_promotion id) (rs ++ r ∷ []))
        ≡ length (keep (of_promotion id) rs) + (if r.promotion_id == id then 1 else 0))
      × (length (keep (by_user id u) (rs ++ r ∷ []))
          ≡ length (keep (by_user id u) rs)
            + (if r.promotion_id == id && r.user_id == u then 1 else 0))
count_one_more id u r rs = (count-snoc (of_promotion id) rs r, count-snoc (by_user id u) rs r)

redeem-Bounded :
    (id user_id : ℕ) (p : Promotion) (r : Redemption) (o : Option Promotion) (rs : List Redemption)
    → Below user_id p rs
    → r.promotion_id ≡ p.id
    → r.user_id ≡ user_id
    → (id ≡ p.id → o ≡ some p)
    → Bounded id o rs
    → Bounded id (bumped p.id o) (rs ++ r ∷ [])
redeem-Bounded id user_id p r none rs below ep eu e h = tt
redeem-Bounded id user_id p r (some q) rs below ep eu e h = (
  ground arith,
  grind (arith, count_one_more id 0 r rs, h.0, h.1),
  λ u. grind (arith, count_one_more id u r rs, h.0, h.2 u),
  λ limit k. grind (arith, h.0, h.3 limit),
)

-- Redeeming a code keeps the books of every promotion: its counter is the number of its redemptions, no
-- user has more of them than the limit for one user, and they are not more than the limit in total. No
-- two promotions have the same id.
pub redeem-Within :
    (flag_id : ℕ) (code : List ℕ) (user_id ride_id fare id : ℕ) (s : Promotions)
    → Distinct s.promotions
    → Within id s
    → Within id (after (redeem flag_id code user_id ride_id fare) s)
unfolding redeem validate write_redemption
redeem-Within flag_id code user_id ride_id fare id s d h =
    elim (Option-cases (promotion_of (to_upper code) s.promotions)) [
      | inl missing ↦ ground arith
      | inr (p, e) ↦
          let r : Redemption = record {
            promotion_id = p.id;
            user_id = user_id;
            ride_id = ride_id;
            discount_amount = compute_discount p fare;
            redeemed_at = s.bank.now;
          } in
          ground (
            arith,
            check_promotion-Below p user_id fare s,
            find_first-lookup (λ (q : Promotion). same_code q.code (to_upper code)) s.promotions d
                e,
            lookup-bump p.id id s.promotions,
            redeem-Bounded id user_id p r (lookup id s.promotions) s.redemptions,
          )
    ]

abbrev pub is_lower : ℕ → Bool
is_lower c = leb 97 c && leb c 122

same_code-upper :
    (stored code : List ℕ)
    → same_code stored (map upper code) ≡ true
    → every (λ c. not (is_lower c)) stored ≡ true
same_code-upper [] code e = refl
same_code-upper (a ∷ as') [] e = absurd (ground arith)
same_code-upper (a ∷ as') (b ∷ bs) e = ground (arith, same_code-upper as' bs)

-- A promotion that was created with a lower-case letter in its code is never found: every code that is
-- accepted, however it was typed, stands for a promotion whose stored code has no lower-case letter.
validate_upper_only :
    (code : List ℕ) (user_id fare : ℕ) (s : Promotions) {v : Preview}
    → result (validate code user_id fare) s ≡ ok v
    → every (λ c. not (is_lower c)) v.promotion.code ≡ true
unfolding validate to_upper
validate_upper_only code user_id fare s e =
    elim (Option-cases (promotion_of (to_upper code) s.promotions)) [
      | inl missing ↦ absurd (ground arith)
      | inr (p, ep) ↦ ground (
        arith,
        same_code-upper p.code code,
        find_first-holds (λ (q : Promotion). same_code q.code (to_upper code)) s.promotions ep,
      )
    ]
