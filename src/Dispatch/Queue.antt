-- ===== src/Dispatch/Queue.antt =====
-- The queue of an airport gets shorter with each driver whom automatic dispatch takes out of it.
use ryda.Base.{
  ℕ, suc, zero, ◌+◌, ◌≤◌, ◌<◌, ◌≡◌, refl, true, false, Option, none, some, List, [], ◌∷◌, arith,
  length, keep, Option-cases, Bool-cases, inl, inr, ◌⊎◌, ok, after, subst, sym, ap,
}
use ryda.Trips.{Ride, RideCategory}
use ryda.Drivers.Entities.{Profile}
use ryda.Dispatch.{offer_to_specific_driver, withdraw_offer, add_offer}
use ryda.Dispatch.Airport.{
  QueueEntry, Board, waits_at, dispatch_next, is_ready, next_ready, offer_found,
  try_offer_via_airport_queue,
}

-- How many drivers wait at an airport; none do where the pickup is at no airport.
abbrev pub waiting_at : Option ℕ → List QueueEntry → ℕ
waiting_at none entries = 0
waiting_at (some airport_id) entries = length (keep (waits_at airport_id) entries)

dispatch_next_drops :
    (airport_id : ℕ) (category : RideCategory) (entries rest : List QueueEntry) (e : QueueEntry)
    → dispatch_next airport_id category entries ≡ some (e, rest)
    → waiting_at (some airport_id) rest + 1 ≡ waiting_at (some airport_id) entries
dispatch_next_drops airport_id category [] rest e h = cc
dispatch_next_drops airport_id category (x ∷ entries) rest e h =
    elim (Option-cases (dispatch_next airport_id category entries)) [
      | inl missing ↦ ground arith
      | inr ((found, later), there) ↦
          ground (arith, dispatch_next_drops airport_id category entries later found there)
    ]

-- One round of the search.
module _ (n airport_id : ℕ) (category : RideCategory) (profiles : List Profile)
    (entries : List QueueEntry) where
  next_ready-none :
      dispatch_next airport_id category entries ≡ none
      → next_ready (suc n) airport_id category profiles entries ≡ (none, entries)
  next_ready-none h = ground arith

  next_ready_taken :
      (rest : List QueueEntry) (e : QueueEntry)
      → dispatch_next airport_id category entries ≡ some (e, rest)
      → is_ready profiles e.driver_user_id ≡ true
      → next_ready (suc n) airport_id category profiles entries ≡ (some e.driver_user_id, rest)
  next_ready_taken rest e h r = ground arith

  next_ready_skipped :
      (rest : List QueueEntry) (e : QueueEntry)
      → dispatch_next airport_id category entries ≡ some (e, rest)
      → is_ready profiles e.driver_user_id ≡ false
      → next_ready (suc n) airport_id category profiles entries
        ≡ next_ready n airport_id category profiles rest
  next_ready_skipped rest e h r = ground arith

-- What a search of the queue leaves: fewer drivers if it found one, and never more.
abbrev Drops : ℕ → List QueueEntry → Option ℕ × List QueueEntry → Type 0
Drops airport_id entries (found, rest) =
    (waiting_at (some airport_id) rest ≤ waiting_at (some airport_id) entries)
    × ((driver_id : ℕ)
        → found ≡ some driver_id
        → waiting_at (some airport_id) rest < waiting_at (some airport_id) entries)

next_ready-Drops :
    (n airport_id : ℕ) (category : RideCategory) (profiles : List Profile)
    (entries : List QueueEntry)
    → Drops airport_id entries (next_ready n airport_id category profiles entries)
next_ready-Drops zero airport_id category profiles entries = (omega arith, λ driver_id h. cc)
next_ready-Drops (suc n) airport_id category profiles entries =
    elim (Option-cases (dispatch_next airport_id category entries)) [
      | inl missing ↦
          subst (Drops airport_id entries)
            (sym (next_ready-none n airport_id category profiles entries missing))
            (omega arith, λ driver_id h. cc)
      | inr ((e, rest), there) ↦
          let fewer = dispatch_next_drops airport_id category entries rest e there in
          elim (Bool-cases (is_ready profiles e.driver_user_id)) [
            | inl ready ↦
                subst (Drops airport_id entries)
                  (sym (next_ready_taken n airport_id category profiles entries rest e there ready))
                  (omega arith, λ driver_id h. omega arith)
            | inr other ↦
                let (le, lt) = next_ready-Drops n airport_id category profiles rest in
                subst (Drops airport_id entries)
                  (sym
                    (next_ready_skipped n airport_id category profiles entries rest e there other))
                  (omega arith, λ driver_id h. omega arith)
          ]
    ]

abbrev Exhausts : ℕ → RideCategory → Option ℕ × List QueueEntry → Type 0
Exhausts airport_id category (found, rest) =
    found ≡ none → dispatch_next airport_id category rest ≡ none

next_ready-Exhausts :
    (n airport_id : ℕ) (category : RideCategory) (profiles : List Profile)
    (entries : List QueueEntry)
    → waiting_at (some airport_id) entries < n
    → Exhausts airport_id category (next_ready n airport_id category profiles entries)
next_ready-Exhausts zero airport_id category profiles entries l = absurd (omega arith)
next_ready-Exhausts (suc n) airport_id category profiles entries l =
    elim (Option-cases (dispatch_next airport_id category entries)) [
      | inl missing ↦
          subst (Exhausts airport_id category)
            (sym (next_ready-none n airport_id category profiles entries missing)) (λ h. missing)
      | inr ((e, rest), there) ↦
          let fewer = dispatch_next_drops airport_id category entries rest e there in
          elim (Bool-cases (is_ready profiles e.driver_user_id)) [
            | inl ready ↦
                subst (Exhausts airport_id category)
                  (sym (next_ready_taken n airport_id category profiles entries rest e there ready))
                  (λ h. cc)
            | inr other ↦
                subst (Exhausts airport_id category)
                  (sym
                    (next_ready_skipped n airport_id category profiles entries rest e there other))
                  (next_ready-Exhausts n airport_id category profiles rest (omega arith))
          ]
    ]

waiting_le :
    (airport_id : ℕ) (entries : List QueueEntry)
    → waiting_at (some airport_id) entries ≤ length entries
waiting_le airport_id [] = omega arith
waiting_le airport_id (e ∷ entries) = ground (arith, waiting_le airport_id entries)

-- The rounds of the search are enough: where it finds nobody, the queue has no driver left who fits.
search-Exhausts :
    (airport_id : ℕ) (category : RideCategory) (profiles : List Profile) (entries : List QueueEntry)
    → Exhausts airport_id category
        (next_ready (suc (length entries)) airport_id category profiles entries)
search-Exhausts airport_id category profiles entries =
    let fits = waiting_le airport_id entries in
    next_ready-Exhausts (suc (length entries)) airport_id category profiles entries (omega arith)

-- What the attempt at the airport does: an offer to a driver who is then out of the queue, or none, and
-- the queue is no longer than before.
abbrev pub Tried : ℕ → ℕ → Option ℕ → Ride → Board → Type 0
Tried timeout id airport ride b =
    let attempt = try_offer_via_airport_queue timeout id airport ride b in
    (queue : List QueueEntry) × (((driver_id : ℕ) × (attempt ≡ (
      ok true,
      record b {
        queue = queue;
        dispatch = after (offer_to_specific_driver timeout id ride.id driver_id) b.dispatch;
      },
    ))
        × (waiting_at airport queue < waiting_at airport b.queue))
      ⊎ ((attempt ≡ (ok false, record b { queue = queue }))
          × (waiting_at airport queue ≤ waiting_at airport b.queue)))

pub Tried-cases :
    (timeout id : ℕ) (airport : Option ℕ) (ride : Ride) (b : Board)
    → Tried timeout id airport ride b
unfolding try_offer_via_airport_queue offer_to_specific_driver withdraw_offer add_offer
Tried-cases timeout id none ride b = (b.queue, inr (refl, omega arith))
Tried-cases timeout id (some airport_id) ride b =
    let search = next_ready (suc (length b.queue)) airport_id ride.category b.profiles b.queue in
    let (le, lt) =
      next_ready-Drops (suc (length b.queue)) airport_id ride.category b.profiles b.queue in
    let at =
      λ (found : Option ℕ). offer_found timeout id ride found (record b { queue = search.1 }) in
    (
      search.1,
      elim (Option-cases search.0) [
        | inl nobody ↦ inr (ap at nobody, le)
        | inr (driver_id, there) ↦ inl (driver_id, ap at there, lt driver_id there)
      ],
    )
