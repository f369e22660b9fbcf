-- ===== src/Fare/Tiers.antt =====
-- What the tiers cost, and when the night tariff holds.
use ryda.Base.{ℕ, suc, zero, ◌+◌, ◌-◌, ◌*◌, ◌≤◌, ◌<◌, ◌≡◌, ◌≢◌, not, arith}
use native.Mathlib.Nat.{div-eq_of_lt-le}
use ryda.Fare.{blocks, tiered_time_fare, is_night_fare}

blocks_at :
    (k minutes tier : ℕ)
    → zero < tier
    → k * tier < minutes
    → minutes ≤ suc k * tier
    → blocks minutes tier ≡ suc k
unfolding blocks
blocks_at k minutes tier p low high =
    div-eq_of_lt-le {k = suc k} tier {m = minutes + (tier - 1)} (grind arith) (grind arith)

-- A trip whose last minute falls into block k after the first costs the base fare and k increments:
-- a block that is begun counts in full.
pub tiered_time_fare_lem :
    (k duration tier base increment : ℕ)
    → zero < tier
    → k * tier < duration
    → duration ≤ suc k * tier
    → tiered_time_fare duration tier base increment ≡ base + k * increment
unfolding tiered_time_fare
tiered_time_fare_lem zero duration tier base increment p low high = ground arith
tiered_time_fare_lem (suc k) duration tier base increment p low high =
    ground (arith, blocks_at k (duration - tier) tier p (grind arith) (grind arith))

-- At every hour of the day the night tariff holds from `start` to `end` exactly if it does not hold
-- from `end` to `start`, unless they are the same.
pub is_night_fare_complement :
    (start end hour : ℕ)
    → start ≢ end
    → is_night_fare end start hour ≡ not (is_night_fare start end hour)
unfolding is_night_fare
is_night_fare_complement start end hour h = ground arith
