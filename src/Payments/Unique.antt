-- ===== src/Payments/Unique.antt =====
-- Payment records by id and by reference, which are both unique.
use ryda.Base.{
  ℕ, ◌==◌, ◌≡◌, Bool, true, none, some, List, [], ◌∷◌, if◌then◌else◌, arith, lookup, save, every,
  find_first-holds,
}
use ryda.Payments.{by_reference}
use ryda.Payments.Entities.{Payment, payment_keyed}

-- No two records have the same id or the same reference.
abbrev pub Unique : List Payment → Type 0
Unique [] = Unit
Unique (r ∷ rs) = (by_reference r.reference rs ≡ none) × (lookup r.id rs ≡ none) × Unique rs

pub lookup-by_reference :
    (id : ℕ) (rs : List Payment) {r : Payment}
    → Unique rs
    → lookup id rs ≡ some r
    → by_reference r.reference rs ≡ some r
lookup-by_reference id [] u e = cc
lookup-by_reference id (x ∷ rs) {r} u e = ground (
  arith,
  lookup-by_reference id rs {r = r} u.2,
  find_first-holds (λ (q : Payment). q.reference == x.reference) rs {x = r},
)

pub by_reference-lookup :
    (reference : ℕ) (rs : List Payment) {r : Payment}
    → Unique rs
    → by_reference reference rs ≡ some r
    → lookup r.id rs ≡ some r
by_reference-lookup reference [] u e = cc
by_reference-lookup reference (x ∷ rs) {r} u e =
    ground (arith, by_reference-lookup reference rs {r = r} u.2)

module _ (r r' : Payment) (same_id : r'.id ≡ r.id) (same : r'.reference ≡ r.reference) where
  pub by_reference-save :
      (i : ℕ) (rs : List Payment)
      → Unique rs
      → lookup r.id rs ≡ some r
      → by_reference i (save r' rs) ≡ (if i == r.reference then some r' else by_reference i rs)
  by_reference-save i [] u e = cc
  by_reference-save i (x ∷ rs) u e =
      ground (arith, by_reference-save i rs u.2, lookup-by_reference r.id rs {r = r} u.2)

  lookup-save_other :
      (j : ℕ) (rs : List Payment)
      → lookup r.id rs ≡ some r
      → lookup j rs ≡ none
      → lookup j (save r' rs) ≡ none
  lookup-save_other j [] e h = cc
  lookup-save_other j (x ∷ rs) e h = ground (arith, lookup-save_other j rs)

  pub save-Unique : (rs : List Payment) → Unique rs → lookup r.id rs ≡ some r → Unique (save r' rs)
  save-Unique [] u e = cc
  save-Unique (x ∷ rs) u e = ground (
    arith,
    save-Unique rs u.2,
    by_reference-save x.reference rs u.2,
    lookup-save_other x.id rs,
    lookup-by_reference r.id rs {r = r} u.2,
  )

pub every-by_reference :
    (p : Payment → Bool) (reference : ℕ) (rs : List Payment) {r : Payment}
    → by_reference reference rs ≡ some r
    → every p rs ≡ true
    → p r ≡ true
every-by_reference p reference [] e h = cc
every-by_reference p reference (x ∷ rs) {r} e h =
    ground (arith, every-by_reference p reference rs {r = r})
