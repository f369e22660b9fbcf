-- ===== src/Users.antt =====
-- src/users/users.service.ts: the parts of a user that the other services read, the lookups, and
-- ratings. A rating is a whole number of hundredths.
use ryda.Base.{
  ℕ, Bool, Option, none, some, List, Action, or_throw, lookup, save, find_first, Keyed, ◌==◌, suc,
  ◌+◌, ◌*◌, ◌/◌, ◌>>=◌, ◌>>◌, modify, pure, user_not_found, false,
}

pub record User : Type 0 where
  pub id : ℕ
  pub phone : Option ℕ
  pub email : Option ℕ
  pub is_phone_verified : Bool
  pub referral_code : ℕ
  pub referred_by_code : Option ℕ
  pub rating : ℕ
  pub rating_count : ℕ

instance abbrev pub user_keyed : Keyed User
user_keyed = record { key = λ u. u.id }

-- findById
abbrev pub find_by_id : ℕ → Action (List User) User
find_by_id id users = or_throw (lookup id users) user_not_found users

abbrev pub has_phone : ℕ → User → Bool
has_phone phone u = elim u.phone [ none ↦ false | some p ↦ p == phone ]

-- findByPhone, findByEmail, findByReferralCode
unfoldable pub find_by_phone : ℕ → List User → Option User
find_by_phone phone = find_first (has_phone phone)

unfoldable pub find_by_email : ℕ → List User → Option User
find_by_email email = find_first (λ u. elim u.email [ none ↦ false | some e ↦ e == email ])

unfoldable pub find_by_referral_code : ℕ → List User → Option User
find_by_referral_code code = find_first (λ u. u.referral_code == code)

-- `newAvg.toFixed(2)`, for a sum of hundredths
unfoldable pub rounded : ℕ → ℕ → ℕ
rounded sum count = (2 * sum + count) / (2 * count)

-- applyRating
unfoldable pub apply_rating : ℕ → ℕ → Action (List User) User
apply_rating user_id value = do
  user ← find_by_id user_id
  let count = suc user.rating_count
  let saved : User = record user {
    rating = rounded (user.rating * user.rating_count + 100 * value) count;
    rating_count = count;
  }
  modify (save saved)
  pure saved
