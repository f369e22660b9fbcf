-- ===== src/Base/Rows.antt =====
-- A database table as the list of its rows. `lookup` is `findOne` by the primary key; `save` is the
-- repository's `save`: it replaces the row that has the key, or adds one.
use mathlib.Core.Path.{◌≡◌, refl}
use mathlib.Core.Bool.{Bool, true}
use mathlib.Core.Option.{Option, none, some}
use mathlib.Core.List.{List, [], ◌∷◌, ◌++◌}
use mathlib.Core.Logic.{◌≢◌}
use Prim.Native.Nat.{ℕ}
use native.Mathlib.Omega.{arith}
use ryda.Base.Tests.{◌==◌, is_some, if◌then◌else◌}
use ryda.Base.Lists.{every}
use ryda.Base.Int.{ℤ, pos, ◌+ℤ◌, int_laws}

-- The primary key of a row.
pub record Keyed (V : Type 0) : Type 0 where
  pub key : V → ℕ

abbrev pub key_of : {V : Type 0} ⦃k : Keyed V⦄ → V → ℕ
key_of ⦃k⦄ = k.key

-- `findOne({ where })`, on the rows in their order
abbrev pub find_first {ℓ} : {A : Type ℓ} → (A → Bool) → List A → Option A
find_first p [] = none
find_first p (x ∷ xs) = if p x then some x else find_first p xs

-- `findOne({ where, order: { createdAt: 'DESC' } })`: the rows stand in the order of creation.
abbrev pub find_last {ℓ} : {A : Type ℓ} → (A → Bool) → List A → Option A
find_last p [] = none
find_last p (x ∷ xs) =
    let rest = find_last p xs in if is_some rest then rest else if p x then some x else none

pub find_last-holds {ℓ} :
    {A : Type ℓ} (p : A → Bool) (xs : List A) {x : A} → find_last p xs ≡ some x → p x ≡ true
find_last-holds p [] e = cc
find_last-holds p (y ∷ xs) {x} e = ground (arith, find_last-holds p xs {x = x})

pub find_first-holds {ℓ} :
    {A : Type ℓ} (p : A → Bool) (xs : List A) {x : A} → find_first p xs ≡ some x → p x ≡ true
find_first-holds p [] e = cc
find_first-holds p (y ∷ xs) {x} e = ground (arith, find_first-holds p xs {x = x})

pub find_first-append {ℓ} :
    {A : Type ℓ} (p : A → Bool) (xs : List A) (x : A)
    → find_first p xs ≡ none
    → p x ≡ true
    → find_first p (xs ++ x ∷ []) ≡ some x
find_first-append p [] x e h = ground arith
find_first-append p (y ∷ xs) x e h = ground (arith, find_first-append p xs x)

module _ {V : Type 0} ⦃keyed : Keyed V⦄ where
  abbrev pub lookup : ℕ → List V → Option V
  lookup k [] = none
  lookup k (v ∷ t) = if k == key_of v then some v else lookup k t

  abbrev pub save : V → List V → List V
  save v [] = v ∷ []
  save v (w ∷ t) = if key_of v == key_of w then v ∷ t else w ∷ save v t

  pub key-lookup : (k : ℕ) {v : V} (t : List V) → lookup k t ≡ some v → key_of v ≡ k
  key-lookup k [] e = cc
  key-lookup k {v} (w ∷ t) e = ground (arith, key-lookup k {v = v} t)

  pub lookup-key_of :
      (k : ℕ) {v : V} (t : List V) → lookup k t ≡ some v → lookup (key_of v) t ≡ some v
  lookup-key_of k {v} t e = ground (arith, key-lookup k {v = v} t e)

  pub lookup-save :
      (j : ℕ) (v : V) (t : List V)
      → lookup j (save v t) ≡ (if j == key_of v then some v else lookup j t)
  lookup-save j v [] = ground arith
  lookup-save j v (w ∷ t) = ground (arith, lookup-save j v t)

  pub lookup-save_self : (v : V) (t : List V) → lookup (key_of v) (save v t) ≡ some v
  lookup-save_self v t = ground (arith, lookup-save (key_of v) v t)

  pub lookup-save_ne :
      (j : ℕ) (v : V) (t : List V) → j ≢ key_of v → lookup j (save v t) ≡ lookup j t
  lookup-save_ne j v t h = ground (arith, lookup-save j v t)

  -- No two rows have the same key.
  abbrev pub Distinct : List V → Type 0
  Distinct [] = Unit
  Distinct (v ∷ t) = (lookup (key_of v) t ≡ none) × Distinct t

  pub save-Distinct : (v : V) (t : List V) → Distinct t → Distinct (save v t)
  save-Distinct v [] h = (refl, tt)
  save-Distinct v (w ∷ t) h = ground (arith, save-Distinct v t h.1, lookup-save (key_of w) v t)

  pub find_last-lookup :
      (p : V → Bool) (t : List V) {v : V}
      → Distinct t
      → find_last p t ≡ some v
      → lookup (key_of v) t ≡ some v
  find_last-lookup p [] d e = cc
  find_last-lookup p (w ∷ t) {v} d e = ground (arith, find_last-lookup p t {v = v} d.1)

  pub find_first-lookup :
      (p : V → Bool) (t : List V) {v : V}
      → Distinct t
      → find_first p t ≡ some v
      → lookup (key_of v) t ≡ some v
  find_first-lookup p [] d e = cc
  find_first-lookup p (w ∷ t) {v} d e = ground (arith, find_first-lookup p t {v = v} d.1)

  -- Saving the row that was found, changed but still fit, leaves it the one that is found.
  pub find_last-save :
      (p : V → Bool) (t : List V) {v : V} (v' : V)
      → Distinct t
      → find_last p t ≡ some v
      → key_of v' ≡ key_of v
      → p v' ≡ true
      → find_last p (save v' t) ≡ some v'
  find_last-save p [] v' d e k h = cc
  find_last-save p (w ∷ t) {v} v' d e k h = ground (
    arith,
    find_last-save p t {v = v} v' d.1,
    find_last-lookup p t {v = v} d.1,
    find_last-holds p t {x = v},
  )

  -- The same for the first row that is found.
  pub find_first-save :
      (p : V → Bool) (rows : List V) {v : V} (v' : V)
      → find_first p rows ≡ some v
      → lookup (key_of v) rows ≡ some v
      → key_of v' ≡ key_of v
      → p v' ≡ true
      → find_first p (save v' rows) ≡ some v'
  find_first-save p [] v' e l k h = cc
  find_first-save p (x ∷ rows) {v} v' e l k h =
      ground (arith, find_first-save p rows {v = v} v', find_first-holds p rows {x = v})

  pub every-save :
      (p : V → Bool) (v : V) (t : List V)
      → every p t ≡ true
      → p v ≡ true
      → every p (save v t) ≡ true
  every-save p v [] h q = ground arith
  every-save p v (w ∷ t) h q = ground (arith, every-save p v t)

  -- The sum of a number over all rows.
  abbrev pub total : (V → ℤ) → List V → ℤ
  total f [] = pos 0
  total f (v ∷ t) = f v +ℤ total f t

  pub total-save :
      (f : V → ℤ) (v old : V) (t : List V)
      → lookup (key_of v) t ≡ some old
      → total f (save v t) +ℤ f old ≡ total f t +ℤ f v
  total-save f v old [] e = cc
  total-save f v old (x ∷ t) e = grind (int_laws, total-save f v old t)

  pub total-save_new :
      (f : V → ℤ) (v : V) (t : List V)
      → lookup (key_of v) t ≡ none
      → total f (save v t) ≡ total f t +ℤ f v
  total-save_new f v [] e = omega int_laws
  total-save_new f v (x ∷ t) e = grind (int_laws, total-save_new f v t)

  pub every-lookup :
      (p : V → Bool) (id : ℕ) (t : List V) {v : V}
      → lookup id t ≡ some v
      → every p t ≡ true
      → p v ≡ true
  every-lookup p id [] e h = cc
  every-lookup p id (w ∷ t) {v} e h = ground (arith, every-lookup p id t {v = v})
