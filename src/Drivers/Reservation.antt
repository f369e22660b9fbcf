-- ===== src/Drivers/Reservation.antt =====
-- A driver is reserved for one trip at a time, and comes back from it.
use ryda.Base.{
  ℕ, ◌≤◌, ◌==◌, ◌≡◌, refl, Bool, true, false, ◌&&◌, none, some, List, [], ◌∷◌, arith, after, result,
  ok, err, lookup, save, find_first, find_first-lookup, find_first-holds, find_first-save, keep,
  length, Distinct, driver_unavailable, Keyed, key_of, Option-cases, inl, inr,
}
use ryda.Drivers.Entities.{
  Service, ride, delivery, on_trip, online_for_both, Availability, is_online_for, Profile,
  profile_keyed, Drivers,
}
use ryda.Drivers.{
  profile_of, is_approved_for, set_availability_internal, restored, restore_after_trip,
  reserve_for_trip,
}

-- At most one row passes the test.
abbrev AtMostOne : {V : Type 0} → (V → Bool) → List V → Type 0
AtMostOne p rows = length (keep p rows) ≤ 1

module _ {V : Type 0} where
  find_first-empty :
      (wide p : V → Bool) (rows : List V)
      → ((x : V) → p x ≡ true → wide x ≡ true)
      → length (keep wide rows) ≤ 0
      → find_first p rows ≡ none
  find_first-empty wide p [] f e = refl
  find_first-empty wide p (x ∷ rows) f e = ground (arith, find_first-empty wide p rows f, f x)

module _ {V : Type 0} ⦃keyed : Keyed V⦄ where
  -- When the only row that could pass is changed to fail, none is found.
  find_first-save_out :
      (wide p q : V → Bool) (rows : List V) (v' : V) {v : V}
      → ((x : V) → p x ≡ true → wide x ≡ true)
      → ((x : V) → q x ≡ true → wide x ≡ true)
      → AtMostOne wide rows
      → find_first p rows ≡ some v
      → lookup (key_of v) rows ≡ some v
      → key_of v' ≡ key_of v
      → q v' ≡ false
      → find_first q (save v' rows) ≡ none
  find_first-save_out wide p q [] v' f g one e l k o = cc
  find_first-save_out wide p q (x ∷ rows) v' {v} f g one e l k o = ground (
    arith,
    find_first-save_out wide p q rows v' {v = v} f g,
    f x,
    g x,
    find_first-holds p rows {x = v},
    find_first-empty wide p rows f,
    find_first-empty wide q rows g,
  )

-- Once a driver is reserved, no second reservation of them succeeds, for either service: it reports
-- that the driver is unavailable. Ids are distinct and a user has one profile.
pub reserve_once :
    (log_id log_id' user_id : ℕ) (first second : Service) (d : Drivers) {p : Profile}
    → Distinct d.profiles
    → AtMostOne (λ r. r.user_id == user_id) d.profiles
    → result (reserve_for_trip log_id user_id first) d ≡ ok p
    → result
        (reserve_for_trip log_id' user_id second)
        (after (reserve_for_trip log_id user_id first) d)
      ≡ err driver_unavailable
unfolding reserve_for_trip
reserve_once log_id log_id' user_id first second d distinct one h =
    let claimable =
      λ (s : Service) (r : Profile). r.user_id == user_id && is_online_for r.availability s in
    elim (Option-cases (find_first (claimable first) d.profiles)) [
      | inl e ↦ ground arith
      | inr (p, e) ↦ ground (
        arith,
        find_first-save_out (λ r. r.user_id == user_id) (claimable first) (claimable second)
            d.profiles (record p { availability = on_trip }) (λ r h. ground arith)
            (λ r h. ground arith) one e (find_first-lookup (claimable first) d.profiles distinct e)
            refl (ground arith),
      )
    ]

module _ {V : Type 0} ⦃keyed : Keyed V⦄ where
  find_first-narrow :
      (wide p : V → Bool) (rows : List V) {v : V}
      → ((x : V) → p x ≡ true → wide x ≡ true)
      → find_first wide rows ≡ some v
      → p v ≡ true
      → find_first p rows ≡ some v
  find_first-narrow wide p [] f e h = cc
  find_first-narrow wide p (x ∷ rows) {v} f e h =
      ground (arith, find_first-narrow wide p rows {v = v} f, f x)

-- A driver who is reserved for a trip comes back from it with the profile they had before, when the
-- services of the state they were in are still approved and that state is their last online one.
pub restore-reserve :
    (log_id log_id' user_id : ℕ) (service : Service) (d : Drivers) {p : Profile}
    → Distinct d.profiles
    → profile_of user_id d.profiles ≡ some p
    → is_online_for p.availability service ≡ true
    → p.last_online ≡ some p.availability
    → (is_online_for p.availability ride ≡ true → is_approved_for p.id ride d.capabilities ≡ true)
    → (is_online_for p.availability delivery ≡ true
        → is_approved_for p.id delivery d.capabilities ≡ true)
    → result
        (restore_after_trip log_id' user_id)
        (after (reserve_for_trip log_id user_id service) d)
      ≡ ok p
unfolding reserve_for_trip restore_after_trip set_availability_internal restored
restore-reserve log_id log_id' user_id service d {p} distinct e o l r v =
    let of_user = λ (r : Profile). r.user_id == user_id in
    let claimable = λ (r : Profile). r.user_id == user_id && is_online_for r.availability service in
    let taken : Profile = record p { availability = on_trip } in
    ground (
      arith,
      find_first-narrow of_user claimable d.profiles (λ r h. ground arith) e,
      find_first-save of_user d.profiles taken e (find_first-lookup of_user d.profiles distinct e)
          refl,
      find_first-holds of_user d.profiles e,
    )

-- The state that a driver was in before the trip, which is taken to be both services where none is known.
abbrev pub before_trip : Profile → Availability
before_trip p = elim p.last_online [ none ↦ online_for_both | some a ↦ a ]
