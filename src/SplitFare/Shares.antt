-- ===== src/SplitFare/Shares.antt =====
-- The default shares of a split.
use ryda.Base.{ℕ, suc, ◌+◌, ◌*◌, ◌≤◌, ◌≡◌, refl, arith, List, [], ◌∷◌, map, none, length}
use native.Mathlib.Nat.{div-mul-le_self, mul-le-mul_left, le_of_mul-le-mul_right}
use ryda.SplitFare.{even_share, shares, sum}

sum_const : (c : ℕ) (phones : List ℕ) → sum (map (λ _. c) phones) ≡ length phones * c
sum_const c [] = omega arith
sum_const c (x ∷ phones) = grind (arith, sum_const c phones)

share_fits : (total k : ℕ) → k * suc k ≤ 2 * total → k * even_share total (k + 1) ≤ total
unfolding even_share
share_fits total k h =
    let e = even_share total (k + 1) in
    le_of_mul-le-mul_right {m = k * e} {n = total} {k = 2 * (k + 1)}
      (grind (arith, mul-le-mul_left k (div-mul-le_self (2 * total + (k + 1)) (2 * (k + 1)))))
      (omega arith)

length_const : (c : ℕ) (phones : List ℕ) → length (map (λ _. c) phones) ≡ length phones
length_const c [] = refl
length_const c (x ∷ phones) = omega (arith, length_const c phones)

-- The default shares never come to more than the fare, so long as the fare in kobo is at least half of
-- k (k + 1) for k participants; there is one for each phone number.
pub shares-fit :
    (total : ℕ) (phones : List ℕ)
    → length phones * suc (length phones) ≤ 2 * total
    → (sum (shares total phones none) ≤ total) × (length (shares total phones none) ≡ length phones)
unfolding shares
shares-fit total phones h =
    let share = even_share total (length phones + 1) in
    (
      grind (arith, sum_const share phones, share_fits total (length phones) h),
      length_const share phones,
    )
