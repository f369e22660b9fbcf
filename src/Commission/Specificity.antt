-- ===== src/Commission/Specificity.antt =====
-- Which rule, or which default, a trip is charged by.
use ryda.Base.{
  Bool-cases, ℕ, ◌≤◌, ◌≡◌, refl, leb, Bool, true, ◌&&◌, none, List, [], ◌∷◌, arith, keep, every,
  inl, inr,
}
use mathlib.Core.List.{Memᴰ}
use ryda.Settings.{Settings}
use ryda.Commission.{
  Rule, Input, ride, delivery, matches, specificity, insert, by_specificity, candidates,
  default_for, delivery_key, resolve_commission_percent,
}

-- The head of a list that is sorted by specificity stands in `rules`, and none of `rules` is more
-- specific.
abbrev pub IsBest : List Rule → List Rule → Type 0
IsBest rules [] = rules ≡ []
IsBest rules (r ∷ _) =
    Memᴰ r rules × (every (λ q. leb (specificity q) (specificity r)) rules ≡ true)

every-weaken :
    (a b : ℕ) (rules : List Rule)
    → a ≤ b
    → every (λ q. leb (specificity q) a) rules ≡ true
    → every (λ q. leb (specificity q) b) rules ≡ true
every-weaken a b [] h e = refl
every-weaken a b (r ∷ rules) h e = ground (arith, every-weaken a b rules)

insert-IsBest :
    (r : Rule) (rules sorted : List Rule)
    → IsBest rules sorted
    → IsBest (r ∷ rules) (insert r sorted)
unfolding insert
insert-IsBest r rules [] h = (Memᴰ.head refl, ground arith)
insert-IsBest r rules (q ∷ sorted) h = elim (Bool-cases (leb (specificity q) (specificity r))) [
  | inl e ↦
      rw e (Memᴰ.head refl, ground (arith, every-weaken (specificity q) (specificity r) rules))
  | inr e ↦ rw e (Memᴰ.tail (h.0), ground arith)
]

by_specificity-IsBest : (rules : List Rule) → IsBest rules (by_specificity rules)
unfolding by_specificity
by_specificity-IsBest [] = refl
by_specificity-IsBest (r ∷ rules) =
    insert-IsBest r rules (by_specificity rules) (by_specificity-IsBest rules)

holds_in :
    (p : Rule → Bool) (x : Rule) (rules : List Rule) {r : Rule}
    → p x ≡ true
    → (Memᴰ r rules → p r ≡ true)
    → Memᴰ r (x ∷ rules)
    → p r ≡ true
holds_in p x rules h f (Memᴰ.head e) = rw e h
holds_in p x rules h f (Memᴰ.tail m) = f m

keep-holds : (p : Rule → Bool) (rules : List Rule) {r : Rule} → Memᴰ r (keep p rules) → p r ≡ true
keep-holds p [] m = elim m [ ]
keep-holds p (x ∷ rules) {r} m = elim (Bool-cases (p x)) [
  | inl e ↦ holds_in p x (keep p rules) e (keep-holds p rules) (rw e at m)
  | inr e ↦ keep-holds p rules (rw e at m)
]

-- What a trip is charged where rules apply, from the sorted rules.
abbrev pub Charged : Settings ℕ → List Rule → Input → Type 0
Charged s rules input =
    (r : Rule) × Memᴰ r (candidates rules input)
    × (r.is_active ≡ true)
    × (matches r input ≡ true)
    × (resolve_commission_percent s rules input ≡ r.commission_percent)
    × (every (λ q. leb (specificity q) (specificity r)) (candidates rules input) ≡ true)

resolve_sorted :
    (s : Settings ℕ) (rules : List Rule) (input : Input) (sorted : List Rule) {q : Rule}
    {qs : List Rule}
    → candidates rules input ≡ q ∷ qs
    → by_specificity (candidates rules input) ≡ sorted
    → IsBest (candidates rules input) sorted
    → Charged s rules input
unfolding candidates resolve_commission_percent
resolve_sorted s rules input [] e h best = absurd (ground arith)
resolve_sorted s rules input (r ∷ sorted) e h best =
    let kept = keep-holds (λ x. x.is_active && matches x input) rules (best.0) in
    (r, best.0, ground arith, ground arith, ground arith, best.1)

-- Where an active rule matches a trip, the trip is charged by one that does, and no other active rule
-- that matches it is more specific.
pub resolve_most_specific :
    (s : Settings ℕ) (rules : List Rule) (input : Input) {q : Rule} {qs : List Rule}
    → candidates rules input ≡ q ∷ qs
    → Charged s rules input
resolve_most_specific s rules input e =
    resolve_sorted s rules input (by_specificity (candidates rules input)) e refl
      (by_specificity-IsBest (candidates rules input))

-- Where no rule matches and deliveries have no default of their own for a level, a delivery is charged
-- as a ride is.
pub delivery_as_ride :
    (s : Settings ℕ) (rules : List Rule) (input : Input)
    → candidates rules (record input { trip_type = ride }) ≡ []
    → candidates rules (record input { trip_type = delivery }) ≡ []
    → s (delivery_key input.driver_level) ≡ none
    → resolve_commission_percent s rules (record input { trip_type = delivery })
      ≡ resolve_commission_percent s rules (record input { trip_type = ride })
unfolding resolve_commission_percent by_specificity default_for
delivery_as_ride s rules input e f n = ground arith
