-- ===== src/Fare/Tests.antt =====
-- Fares by time, and examples of the theorems about them.
use ryda.Base.{◌≡◌, refl, true}
use ryda.Fare.{blocks, tiered_time_fare, is_night_fare}

-- The three trips of the method's comment, in naira.
commented :
    (tiered_time_fare 4 5 1700 700 ≡ 1700)
    × (tiered_time_fare 8 5 1700 700 ≡ 2400)
    × (tiered_time_fare 11 5 1700 700 ≡ 3100)
unfolding tiered_time_fare blocks
commented = (refl, refl, refl)

after_midnight : is_night_fare 22 5 3 ≡ true
unfolding is_night_fare
after_midnight = refl
