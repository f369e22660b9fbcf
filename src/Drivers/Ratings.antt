-- ===== src/Drivers/Ratings.antt =====
-- Ratings stay on their scale, and levels follow trips and ratings.
use ryda.Base.{ℕ, zero, suc, ◌+◌, ◌*◌, ◌≤◌, ◌<◌, ◌≡◌, arith, result, ok, lookup, some}
use native.Mathlib.Nat.{mul-le-mul_right, le-div_iff_mul-le, div-lt_iff_lt-mul}
use ryda.Drivers.Entities.{
  Level, rookie, standard, silver, gold, platinum, diamond, elite, Profile, profile_keyed, Drivers,
}
use ryda.Drivers.Levels.{compute_level, rounded, apply_rating}

abbrev pub level_rank : Level → ℕ
level_rank rookie = 0
level_rank standard = 1
level_rank silver = 2
level_rank gold = 3
level_rank platinum = 4
level_rank diamond = 5
level_rank elite = 6

-- More completed trips and a higher sum of the same number of ratings never lower a level.
pub compute_level_mono :
    (m n a b count : ℕ)
    → m ≤ n
    → a ≤ b
    → level_rank (compute_level m a count) ≤ level_rank (compute_level n b count)
unfolding compute_level
compute_level_mono m n a b count h k = ground arith

-- A rounded average is between the bounds that the sum keeps.
pub rounded-bounds :
    (low high sum count : ℕ)
    → zero < count
    → low * count ≤ sum
    → sum ≤ high * count
    → (low ≤ rounded sum count) × (rounded sum count ≤ high)
unfolding rounded
rounded-bounds low high sum count c h k = (
  (le-div_iff_mul-le {k = 2 * count} (omega arith)).1 (grind arith),
  omega (
    arith,
    (div-lt_iff_lt-mul {k = 2 * count} {x = 2 * sum + count} {y = suc high} (omega arith)).1
        (grind arith),
  ),
)

-- A driver's average is on the scale from 1.00 to 5.00, or nobody rated them yet.
abbrev pub OnScale : Profile → Type 0
OnScale p = zero < p.rating_count → (100 ≤ p.rating) × (p.rating ≤ 500)

sum-bounds :
    (r n v : ℕ)
    → (zero < n → (100 ≤ r) × (r ≤ 500))
    → 1 ≤ v
    → v ≤ 5
    → (100 * suc n ≤ r * n + 100 * v) × (r * n + 100 * v ≤ 500 * suc n)
sum-bounds r zero v s h k = grind arith
sum-bounds r (suc n) v s h k =
    let (low, high) = s (omega arith) in
    grind (arith, mul-le-mul_right (suc n) low, mul-le-mul_right (suc n) high)

-- Every accepted rating leaves the average between 1.00 and 5.00, counts once, and gives the level of
-- the new average before it is rounded.
apply_rating-OnScale :
    (driver_id value : ℕ) (d : Drivers) {p q : Profile}
    → lookup driver_id d.profiles ≡ some p
    → OnScale p
    → result (apply_rating driver_id value) d ≡ ok q
    → (100 ≤ q.rating)
      × (q.rating ≤ 500)
      × (q.rating_count ≡ suc p.rating_count)
      × (q.level
          ≡ compute_level p.completed_trips
              (p.rating * p.rating_count + 100 * value)
              (suc p.rating_count))
unfolding apply_rating
apply_rating-OnScale driver_id value d {p} e s h =
    let sum = p.rating * p.rating_count + 100 * value in
    ground (
      arith,
      sum-bounds p.rating p.rating_count value s,
      rounded-bounds 100 500 sum (suc p.rating_count),
    )
