-- ===== src/Dispatch/Exhaustion.antt =====
-- Automatic dispatch comes to an end.
use ryda.Base.{
  find_first-append, ℕ, suc, zero, ◌+◌, ◌*◌, ◌≤◌, ◌<◌, ◌==◌, ◌≡◌, refl, Bool, true, false, ◌&&◌,
  ◌||◌, Option, none, some, List, [], ◌∷◌, ◌++◌, map, if◌then◌else◌, arith, some_of, length, lookup,
  key-lookup, find_first, after, List-cases, inl, inr, ◌⊎◌, subst, sym, ap, ◌∙◌, ◌>>=◌, bind-ok, ok,
}
use ryda.Trips.{Ride, ride_keyed, no_driver_found, is_searching, is_manual}
use ryda.Dispatch.{
  Offer, OfferStatus, Dispatch, pending, superseded, declined, pending_for, pending_of, update,
  offer_to_specific_driver, withdraw_offer, add_offer, get_pending_offer_for_ride, mark_declined,
}
use ryda.Dispatch.Airport.{Board, QueueEntry, try_offer_via_airport_queue}
use ryda.Dispatch.Queue.{waiting_at, Tried-cases}
use ryda.Dispatch.Auto.{
  offer_from_search, untried, exhausted, mark_no_driver_found, offer_best, offer_next_candidate,
}

-- Every driver who is asked declines.
abbrev pub decline_open : ℕ → Dispatch → Dispatch
decline_open ride_id d = elim (find_first (pending_for ride_id) d.offers) [
  | none ↦ d
  | some o ↦ after (mark_declined ride_id o.driver_user_id) d
]

-- One round of dispatch, ended by a refusal.
abbrev pub refused : ℕ → Board → Board
refused ride_id b = record b { dispatch = decline_open ride_id b.dispatch }

abbrev pub round : ℕ → ℕ → Option ℕ → List ℕ → ℕ → Board → Board
round timeout id airport pool ride_id b =
    refused ride_id (after (offer_next_candidate timeout id airport pool ride_id) b)

abbrev pub rounds : ℕ → ℕ → ℕ → Option ℕ → List ℕ → ℕ → Board → Board
rounds zero timeout id airport pool ride_id b = b
rounds (suc n) timeout id airport pool ride_id b =
    rounds n timeout (suc id) airport pool ride_id (round timeout id airport pool ride_id b)

-- Nothing is open: no offer of the ride is pending.
abbrev pub NoOpen : ℕ → List Offer → Type 0
NoOpen ride_id os = find_first (pending_for ride_id) os ≡ none

module _ {A : Type 0} where
  some_of-snoc :
      (p : A → Bool) (xs : List A) (x : A) → some_of p (xs ++ x ∷ []) ≡ (some_of p xs || p x)
  some_of-snoc p [] x = ground arith
  some_of-snoc p (y ∷ xs) x = ground (arith, some_of-snoc p xs x)

  find_first-snoc_out :
      (p : A → Bool) (xs : List A) (x : A)
      → find_first p xs ≡ none
      → p x ≡ false
      → find_first p (xs ++ x ∷ []) ≡ none
  find_first-snoc_out p [] x e h = ground arith
  find_first-snoc_out p (y ∷ xs) x e h = ground (arith, find_first-snoc_out p xs x)

-- An update of open offers leaves the others, and a list without them, as it is.
update_none :
    (ride_id : ℕ) (p : Offer → Bool) (s : OfferStatus) (os : List Offer)
    → ((o : Offer) → p o ≡ true → pending_for ride_id o ≡ true)
    → NoOpen ride_id os
    → update p s os ≡ os
update_none ride_id p s [] f e = refl
update_none ride_id p s (o ∷ os) f e = ground (arith, update_none ride_id p s os f, f o)

update-snoc :
    (p : Offer → Bool) (s : OfferStatus) (os : List Offer) (o : Offer)
    → update p s (os ++ o ∷ []) ≡ update p s os ++ (if p o then record o { status = s } else o) ∷ []
update-snoc p s [] o = refl
update-snoc p s (x ∷ os) o = ground (arith, update-snoc p s os o)

untried-snoc :
    (ride_id : ℕ) (pool : List ℕ) (os : List Offer) (o : Offer)
    → length (untried ride_id pool (os ++ o ∷ [])) ≤ length (untried ride_id pool os)
untried-snoc ride_id [] os o = omega arith
untried-snoc ride_id (c ∷ pool) os o = ground (
  arith,
  untried-snoc ride_id pool os o,
  some_of-snoc (λ (o : Offer). o.ride_id == ride_id && o.driver_user_id == c) os o,
)

-- An offer to the best of the untried leaves fewer of them.
untried_drops :
    (ride_id : ℕ) (pool : List ℕ) (os : List Offer) (o : Offer) (best : ℕ) (rest : List ℕ)
    → untried ride_id pool os ≡ best ∷ rest
    → o.ride_id ≡ ride_id
    → o.driver_user_id ≡ best
    → length (untried ride_id pool (os ++ o ∷ [])) < length (untried ride_id pool os)
untried_drops ride_id [] os o best rest e r d = absurd (ground arith)
untried_drops ride_id (c ∷ pool) os o best rest e r d = ground (
  arith,
  untried_drops ride_id pool os o best rest,
  untried-snoc ride_id pool os o,
  some_of-snoc (λ (o : Offer). o.ride_id == ride_id && o.driver_user_id == c) os o,
)

-- An offer of a round, open and then declined.
abbrev asked : OfferStatus → ℕ → ℕ → ℕ → ℕ → Offer
asked status id ride_id driver_id expires_at = record {
  id = id;
  ride_id = ride_id;
  driver_user_id = driver_id;
  status = status;
  expires_at = expires_at;
}

-- The ride is one that automatic dispatch works on, and nothing of it is open.
abbrev pub Waiting : ℕ → Dispatch → Type 0
Waiting ride_id d =
    (ride : Ride) × (lookup ride_id d.rides ≡ some ride)
    × (is_searching ride.status ≡ true)
    × (is_manual ride.dispatch_mode ≡ false)
    × NoOpen ride_id d.offers

offer_asks :
    (timeout id ride_id driver_id : ℕ) (d : Dispatch)
    → Waiting ride_id d
    → let d' = after (offer_to_specific_driver timeout id ride_id driver_id) d in
      (d'.rides ≡ d.rides)
      × (d'.offers ≡ d.offers ++ asked pending id ride_id driver_id (d.now + timeout * 1000) ∷ [])
unfolding offer_to_specific_driver withdraw_offer add_offer
offer_asks timeout id ride_id driver_id d (ride, e, s, m, o) =
    ground (arith, update_none ride_id (pending_for ride_id) superseded d.offers (λ o h. h) o)

best_is_offered :
    (timeout id ride_id best : ℕ) (rest : List ℕ) (d : Dispatch)
    → after (offer_best timeout id ride_id (best ∷ rest)) d
      ≡ after (offer_to_specific_driver timeout id ride_id best) d
unfolding offer_best
best_is_offered timeout id ride_id best rest d = ground arith

decline_open_refused :
    (id ride_id driver_id expires_at : ℕ) (os : List Offer) (d : Dispatch)
    → NoOpen ride_id os
    → d.offers ≡ os ++ asked pending id ride_id driver_id expires_at ∷ []
    → let d' = decline_open ride_id d in
      (d'.rides ≡ d.rides) × (d'.offers ≡ os ++ asked declined id ride_id driver_id expires_at ∷ [])
unfolding mark_declined
decline_open_refused id ride_id driver_id expires_at os d no_open e =
    let made = asked pending id ride_id driver_id expires_at in
    ground (
      arith,
      find_first-append (pending_for ride_id) os made no_open (ground arith),
      update-snoc (pending_of ride_id driver_id) declined os made,
      update_none ride_id (pending_of ride_id driver_id) declined os (λ o h. ground arith) no_open,
    )

-- An offer that is declined leaves the ride waiting, and its driver among those who were tried.
declined_waits :
    (timeout id ride_id driver_id : ℕ) (d : Dispatch)
    → Waiting ride_id d
    → let d' =
        decline_open ride_id (after (offer_to_specific_driver timeout id ride_id driver_id) d) in
      Waiting ride_id d'
      × (d'.offers ≡ d.offers ++ asked declined id ride_id driver_id (d.now + timeout * 1000) ∷ [])
declined_waits timeout id ride_id driver_id d (ride, e, s, m, o) =
    let time = d.now + timeout * 1000 in
    let (r, os) = offer_asks timeout id ride_id driver_id d (ride, e, s, m, o) in
    let d' = after (offer_to_specific_driver timeout id ride_id driver_id) d in
    let (r', os') = decline_open_refused id ride_id driver_id time d.offers d' o os in
    let gone = asked declined id ride_id driver_id time in
    (
      (
        ride,
        grind (arith, r, r'),
        s,
        m,
        grind
            (arith, os', find_first-snoc_out (pending_for ride_id) d.offers gone o (ground arith)),
      ),
      os',
    )

-- The end of the search: the ride has no driver.
abbrev pub Ended : ℕ → Dispatch → Type 0
Ended ride_id d =
    (ride : Ride) × (lookup ride_id d.rides ≡ some ride)
    × (ride.status ≡ no_driver_found)
    × NoOpen ride_id d.offers

abbrev given_up : ℕ → Option Ride → Option Ride
given_up ride_id none = none
given_up ride_id (some r) =
    some (if exhausted ride_id r then record r { status = no_driver_found } else r)

lookup-given_up :
    (ride_id j : ℕ) (rides : List Ride)
    → lookup j
        (map (λ r. if exhausted ride_id r then record r { status = no_driver_found } else r) rides)
      ≡ given_up ride_id (lookup j rides)
lookup-given_up ride_id j [] = refl
lookup-given_up ride_id j (r ∷ rides) = ground (arith, lookup-given_up ride_id j rides)

given_up_Ended :
    (timeout id ride_id : ℕ) (d : Dispatch)
    → Waiting ride_id d
    → Ended ride_id (decline_open ride_id (after (offer_best timeout id ride_id []) d))
unfolding offer_best mark_no_driver_found
given_up_Ended timeout id ride_id d (ride, e, s, m, o) = (
  record ride { status = no_driver_found },
  ground (arith, lookup-given_up ride_id ride_id d.rides, key-lookup ride_id d.rides e),
  refl,
  ground arith,
)

-- How many drivers can still be asked: those who wait at the airport, and those of the search.
abbrev pub left_to_ask : Option ℕ → List ℕ → ℕ → Board → ℕ
left_to_ask airport pool ride_id b =
    waiting_at airport b.queue + length (untried ride_id pool b.dispatch.offers)

-- After a round, the ride waits and fewer drivers are left, or the search has ended.
abbrev Steps : Option ℕ → List ℕ → ℕ → ℕ → Board → Type 0
Steps airport pool ride_id n b =
    (Waiting ride_id b.dispatch × (left_to_ask airport pool ride_id b < n))
    ⊎ Ended ride_id b.dispatch

-- The board with another queue, after an offer to a driver or to the best of those of the search.
abbrev offered_to : ℕ → ℕ → ℕ → ℕ → List QueueEntry → Board → Board
offered_to timeout id ride_id driver_id queue b = record b {
  queue = queue;
  dispatch = after (offer_to_specific_driver timeout id ride_id driver_id) b.dispatch;
}

abbrev offered_best : ℕ → ℕ → ℕ → List ℕ → List QueueEntry → Board → Board
offered_best timeout id ride_id drivers queue b = record b {
  queue = queue;
  dispatch = after (offer_best timeout id ride_id drivers) b.dispatch;
}

-- What is left to ask when the offer to a driver was declined, and the queue is another one.
declined_left :
    (timeout id ride_id driver_id : ℕ) (pool : List ℕ) (b : Board) (queue : List QueueEntry)
    (airport : Option ℕ)
    → Waiting ride_id b.dispatch
    → (waiting_at airport queue < waiting_at airport b.queue)
      ⊎ ((waiting_at airport queue ≤ waiting_at airport b.queue)
          × ((rest : List ℕ) × (untried ride_id pool b.dispatch.offers ≡ driver_id ∷ rest)))
    → Steps airport pool ride_id
        (left_to_ask airport pool ride_id b)
        (refused ride_id (offered_to timeout id ride_id driver_id queue b))
declined_left timeout id ride_id driver_id pool b queue airport h fewer =
    let (w, os) = declined_waits timeout id ride_id driver_id b.dispatch h in
    let gone = asked declined id ride_id driver_id (b.dispatch.now + timeout * 1000) in
    let le = untried-snoc ride_id pool b.dispatch.offers gone in
    elim fewer [
      | inl queued ↦ inl (w, grind (arith, os, le))
      | inr (same, (rest, e)) ↦ inl (
        w,
        grind (
          arith,
          os,
          untried_drops ride_id pool b.dispatch.offers gone driver_id rest e refl refl,
        ),
      )
    ]

offer_next_is :
    (timeout id ride_id : ℕ) (airport : Option ℕ) (pool : List ℕ) (b : Board) {ride : Ride}
    → lookup ride_id b.dispatch.rides ≡ some ride
    → is_searching ride.status ≡ true
    → is_manual ride.dispatch_mode ≡ false
    → NoOpen ride_id b.dispatch.offers
    → offer_next_candidate timeout id airport pool ride_id b
      ≡ (try_offer_via_airport_queue timeout id airport ride
            >>= offer_from_search timeout id pool ride_id)
          b
unfolding offer_next_candidate get_pending_offer_for_ride
offer_next_is timeout id ride_id airport pool b {ride} e s m o = ground arith

-- What offerNextCandidate does after the attempt at the airport, for a ride that waits.
module _ (timeout id ride_id : ℕ) (airport : Option ℕ) (pool : List ℕ) (b : Board) {ride : Ride}
    (e : lookup ride_id b.dispatch.rides ≡ some ride) (s : is_searching ride.status ≡ true)
    (m : is_manual ride.dispatch_mode ≡ false) (o : NoOpen ride_id b.dispatch.offers)
    (queue : List QueueEntry) where
  offer_next_queued :
      (driver_id : ℕ)
      → try_offer_via_airport_queue timeout id airport ride b
        ≡ (ok true, offered_to timeout id ride.id driver_id queue b)
      → after (offer_next_candidate timeout id airport pool ride_id) b
        ≡ offered_to timeout id ride_id driver_id queue b
  offer_next_queued driver_id t =
      let found =
        subst
          (λ i.
            try_offer_via_airport_queue timeout id airport ride b
            ≡ (ok true, offered_to timeout id i driver_id queue b))
          (key-lookup ride_id b.dispatch.rides e) t in
      ap (λ x. x.1)
        (offer_next_is timeout id ride_id airport pool b {ride = ride} e s m o
          ∙ bind-ok (try_offer_via_airport_queue timeout id airport ride)
              (offer_from_search timeout id pool ride_id) b
              (offered_to timeout id ride_id driver_id queue b) found)

  offer_next_searched :
      {drivers : List ℕ}
      → untried ride_id pool b.dispatch.offers ≡ drivers
      → try_offer_via_airport_queue timeout id airport ride b
        ≡ (ok false, record b { queue = queue })
      → after (offer_next_candidate timeout id airport pool ride_id) b
        ≡ offered_best timeout id ride_id drivers queue b
  offer_next_searched is_left t =
      ap (λ x. x.1)
        (offer_next_is timeout id ride_id airport pool b {ride = ride} e s m o
          ∙ bind-ok (try_offer_via_airport_queue timeout id airport ride)
              (offer_from_search timeout id pool ride_id) b (record b { queue = queue }) t)
      ∙ ap (λ x. offered_best timeout id ride_id x queue b) is_left

round-Steps :
    (timeout id ride_id : ℕ) (airport : Option ℕ) (pool : List ℕ) (b : Board)
    → Waiting ride_id b.dispatch
    → Steps airport pool ride_id
        (left_to_ask airport pool ride_id b)
        (round timeout id airport pool ride_id b)
round-Steps timeout id ride_id airport pool b (ride, e, s, m, o) =
    let h : Waiting ride_id b.dispatch = (ride, e, s, m, o) in
    let n = left_to_ask airport pool ride_id b in
    let (queue, tried) = Tried-cases timeout id airport ride b in
    elim tried [
      | inl (driver_id, t, lt) ↦
          subst (λ x. Steps airport pool ride_id n (refused ride_id x))
            (sym (
              offer_next_queued timeout id ride_id airport pool b {ride = ride} e s m o queue
                driver_id t))
            (declined_left timeout id ride_id driver_id pool b queue airport h (inl lt))
      | inr (t, le) ↦ elim (List-cases (untried ride_id pool b.dispatch.offers)) [
        | inl none_left ↦
            subst (λ x. Steps airport pool ride_id n (refused ride_id x))
              (sym (
                offer_next_searched timeout id ride_id airport pool b {ride = ride} e s m o queue
                  {drivers = []} none_left t))
              (inr (given_up_Ended timeout id ride_id b.dispatch h))
        | inr (best, rest, is_left) ↦
            subst (λ x. Steps airport pool ride_id n (refused ride_id x))
              (sym (
                offer_next_searched timeout id ride_id airport pool b {ride = ride} e s m o queue
                  {drivers = best ∷ rest} is_left t
                ∙ ap (λ d. record b { queue = queue; dispatch = d })
                    (best_is_offered timeout id ride_id best rest b.dispatch)))
              (declined_left timeout id ride_id best pool b queue airport h
                (inr (le, (rest, is_left))))
      ]
    ]

round_rests :
    (timeout id ride_id : ℕ) (airport : Option ℕ) (pool : List ℕ) (b : Board)
    → Ended ride_id b.dispatch
    → Ended ride_id (round timeout id airport pool ride_id b).dispatch
unfolding offer_next_candidate
round_rests timeout id ride_id airport pool b (ride, e, s, o) =
    (ride, ground arith, s, ground arith)

rounds_rest :
    (n timeout id ride_id : ℕ) (airport : Option ℕ) (pool : List ℕ) (b : Board)
    → Ended ride_id b.dispatch
    → Ended ride_id (rounds n timeout id airport pool ride_id b).dispatch
rounds_rest zero timeout id ride_id airport pool b h = h
rounds_rest (suc n) timeout id ride_id airport pool b h =
    rounds_rest n timeout (suc id) ride_id airport pool (round timeout id airport pool ride_id b)
      (round_rests timeout id ride_id airport pool b h)

-- Automatic dispatch comes to an end when every driver who is asked declines, while the search finds the
-- same drivers and nobody joins the queue of the airport that contains the pickup, if one does: after one
-- round more than there are drivers in that queue and drivers left to try, the ride is marked as one
-- that no driver was found for, and it stays so.
pub rounds_end :
    (n timeout id ride_id : ℕ) (airport : Option ℕ) (pool : List ℕ) (b : Board)
    → Waiting ride_id b.dispatch
    → left_to_ask airport pool ride_id b < n
    → Ended ride_id (rounds n timeout id airport pool ride_id b).dispatch
rounds_end zero timeout id ride_id airport pool b h l = absurd (omega arith)
rounds_end (suc n) timeout id ride_id airport pool b h l =
    let b' = round timeout id airport pool ride_id b in
    elim (round-Steps timeout id ride_id airport pool b h) [
      | inl (w, fewer) ↦ rounds_end n timeout (suc id) ride_id airport pool b' w (omega arith)
      | inr ended ↦ rounds_rest n timeout (suc id) ride_id airport pool b' ended
    ]
