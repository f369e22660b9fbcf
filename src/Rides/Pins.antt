-- ===== src/Rides/Pins.antt =====
-- How many guesses at the PIN of a ride count.
use ryda.Base.{
  ℕ, suc, zero, ◌+◌, ◌==◌, ◌≡◌, refl, true, false, not, some, List, [], ◌∷◌, arith, after, lookup,
  lookup-save_self, key-lookup, take, every, ◌≤◌,
}
use ryda.Trips.{Ride, ride_keyed}
use ryda.Rides.{verify_pin, tried_pin}
use ryda.Rides.Entities.{Rides}

-- The attempts of a driver at the PIN of a ride, one after the other.
abbrev pub guess_all : ℕ → ℕ → List ℕ → Rides → Rides
guess_all ride_id driver_id [] w = w
guess_all ride_id driver_id (pin ∷ pins) w =
    guess_all ride_id driver_id pins (after (verify_pin ride_id driver_id pin) w)

-- The ride is in the table, its PIN is `secret` and was not given yet, after `n` wrong guesses.
abbrev pub Secret : ℕ → ℕ → ℕ → ℕ → Rides → Type 0
Secret ride_id driver_id secret n w =
    (r : Ride) × (lookup ride_id w.rides ≡ some r)
    × (r.driver_id ≡ some driver_id)
    × (r.is_pin_verified ≡ false)
    × (r.verification_pin ≡ some secret)
    × (r.pin_attempt_count ≡ n)

wrong_guess :
    (ride_id driver_id secret pin n : ℕ) (w : Rides)
    → Secret ride_id driver_id secret n w
    → suc n ≤ 5
    → (secret == pin) ≡ false
    → Secret ride_id driver_id secret (suc n) (after (verify_pin ride_id driver_id pin) w)
unfolding verify_pin
wrong_guess ride_id driver_id secret pin n w (r, e, d, v, s, c) h k = (
  tried_pin false r,
  ground (arith, lookup-save_self (tried_pin false r) w.rides, key-lookup ride_id w.rides e),
  d,
  v,
  s,
  ground arith,
)

late_guess :
    (ride_id driver_id secret pin n : ℕ) (w : Rides)
    → Secret ride_id driver_id secret n w
    → 5 ≤ n
    → Secret ride_id driver_id secret n (after (verify_pin ride_id driver_id pin) w)
unfolding verify_pin
late_guess ride_id driver_id secret pin n w (r, e, d, v, s, c) h = (r, ground arith, d, v, s, c)

-- Only five guesses at a PIN count: where none of the first five is right, the ride is never verified,
-- however many guesses follow. A ride on which `left` guesses are left is what the induction is on.
pub guess_all-Secret :
    (ride_id driver_id secret left n : ℕ) (pins : List ℕ) (w : Rides)
    → left + n ≡ 5
    → Secret ride_id driver_id secret n w
    → every (λ pin. not (secret == pin)) (take left pins) ≡ true
    → (m : ℕ) × Secret ride_id driver_id secret m (guess_all ride_id driver_id pins w)
guess_all-Secret ride_id driver_id secret left n [] w l h k = (n, h)
guess_all-Secret ride_id driver_id secret zero n (pin ∷ pins) w l h k =
    guess_all-Secret ride_id driver_id secret zero n pins
      (after (verify_pin ride_id driver_id pin) w) l
      (late_guess ride_id driver_id secret pin n w h (omega arith)) refl
guess_all-Secret ride_id driver_id secret (suc left) n (pin ∷ pins) w l h k =
    guess_all-Secret ride_id driver_id secret left (suc n) pins
      (after (verify_pin ride_id driver_id pin) w) (omega arith)
      (wrong_guess ride_id driver_id secret pin n w h (omega arith) (ground arith)) (ground arith)
