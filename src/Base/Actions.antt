-- ===== src/Base/Actions.antt =====
-- Service methods: actions on the stored state that return a value or throw. What was written
-- before a throw stays written, except inside `transaction`, which rolls back.
use mathlib.Core.Bool.{Bool, true, false}
use mathlib.Core.Option.{Option, none, some}
use mathlib.Core.Path.{◌≡◌, refl, ap}
use mathlib.Core.Logic.{◌⊎◌, inl, inr}
use ryda.Base.Errors.{Error}

pub data Result (A : Type 0) : Type 0 where
  ok : A → Result A
  err : Error → Result A

pub Result-cases :
    {A : Type 0} (r : Result A) → ((a : A) × (r ≡ ok a)) ⊎ ((e : Error) × (r ≡ err e))
Result-cases (ok a) = inl (a, refl)
Result-cases (err e) = inr (e, refl)

abbrev pub Action : Type 0 → Type 0 → Type 0
Action S A = S → Result A × S

module _ {S A : Type 0} where
  abbrev pub pure : A → Action S A
  pure a s = (ok a, s)

  abbrev pub throw : Error → Action S A
  throw e s = (err e, s)

  abbrev pub gets : (S → A) → Action S A
  gets f s = (ok (f s), s)

  -- `if (!x) throw e`, with the value of x after it.
  abbrev pub or_throw : Option A → Error → Action S A
  or_throw none e s = (err e, s)
  or_throw (some a) e s = (ok a, s)

  -- A database transaction: a throw inside undoes its writes.
  abbrev pub transaction : Action S A → Action S A
  transaction m s = let (r, s') = m s in elim r [ ok a ↦ (ok a, s') | err e ↦ (err e, s) ]

  -- The state after a call, and its result.
  abbrev pub after : Action S A → S → S
  after m s = (m s).1

  abbrev pub result : Action S A → S → Result A
  result m s = (m s).0

  -- `.catch(() => undefined)`: what the call wrote before it threw stays written.
  abbrev pub attempt : Action S A → Action S (Unit {0})
  attempt m s = (ok tt, (m s).1)

  -- `try { m } catch (e) { h(e) }`
  abbrev pub catch : Action S A → (Error → Action S A) → Action S A
  catch m h s = let (r, s') = m s in elim r [ ok a ↦ (ok a, s') | err e ↦ h e s' ]

infixl 5 ◌>>=◌ ◌>>◌
abbrev pub ◌>>=◌ : {S A B : Type 0} → Action S A → (A → Action S B) → Action S B
◌>>=◌ m f s = let (r, s') = m s in elim r [ ok a ↦ f a s' | err e ↦ (err e, s') ]

-- A call before another one, by what the first returns.
module _ {S A B : Type 0} (m : Action S A) (f : A → Action S B) (s s' : S) where
  pub bind-ok : {a : A} → m s ≡ (ok a, s') → (m >>= f) s ≡ f a s'
  bind-ok e = ap (λ (x : Result A × S). elim x.0 [ ok a ↦ f a x.1 | err e ↦ (err e, x.1) ]) e

  pub bind-err : {e : Error} → m s ≡ (err e, s') → (m >>= f) s ≡ (err e, s')
  bind-err e = ap (λ (x : Result A × S). elim x.0 [ ok a ↦ f a x.1 | err e ↦ (err e, x.1) ]) e

abbrev pub ◌>>◌ : {S A B : Type 0} → Action S A → Action S B → Action S B
m >> k = m >>= λ _. k

module _ {S : Type 0} where
  -- `if (c) throw e`
  abbrev pub throw_if : Bool → Error → Action S (Unit {0})
  throw_if true e s = (err e, s)
  throw_if false e s = (ok tt, s)

  abbrev pub modify : (S → S) → Action S (Unit {0})
  modify f s = (ok tt, f s)
