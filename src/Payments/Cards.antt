-- ===== src/Payments/Cards.antt =====
-- The default card of a user.
use ryda.Base.{
  ℕ, ◌+◌, ◌==◌, ◌≡◌, ◌≤◌, refl, Bool, true, false, not, ◌&&◌, none, some, List, [], ◌∷◌, arith,
  after, result, save, map, keep, length, Option-cases, inl, inr, if◌then◌else◌, err, find_first,
  find_first-holds, every, no_saved_card,
}
use ryda.Payments.{
  Fresh, default_card, set_default_card, remove_card, save_card_from_verification, Answer,
  charge_saved_card,
}
use ryda.Payments.Entities.{SavedCard, card_keyed, Payments}

abbrev is_default_of : ℕ → SavedCard → Bool
is_default_of user_id c = c.user_id == user_id && c.is_default

-- The default cards of a user.
abbrev pub defaults : ℕ → List SavedCard → ℕ
defaults user_id cards = length (keep (is_default_of user_id) cards)

abbrev unset : ℕ → SavedCard → SavedCard
unset user_id c = if c.user_id == user_id then record c { is_default = false } else c

defaults-save :
    (user_id : ℕ) (c : SavedCard) (cards : List SavedCard)
    → defaults user_id (save c cards)
      ≤ defaults user_id cards + (if is_default_of user_id c then 1 else 0)
defaults-save user_id c [] = ground arith
defaults-save user_id c (x ∷ cards) = ground (arith, defaults-save user_id c cards)

defaults-unset :
    (user_id : ℕ) (cards : List SavedCard) → defaults user_id (map (unset user_id) cards) ≡ 0
defaults-unset user_id [] = refl
defaults-unset user_id (c ∷ cards) = ground (arith, defaults-unset user_id cards)

defaults-unset_other :
    (user_id other : ℕ) (cards : List SavedCard)
    → defaults user_id (map (unset other) cards) ≤ defaults user_id cards
defaults-unset_other user_id other [] = omega arith
defaults-unset_other user_id other (c ∷ cards) =
    ground (arith, defaults-unset_other user_id other cards)

defaults-keep :
    (user_id : ℕ) (p : SavedCard → Bool) (cards : List SavedCard)
    → defaults user_id (keep p cards) ≤ defaults user_id cards
defaults-keep user_id p [] = omega arith
defaults-keep user_id p (c ∷ cards) = ground (arith, defaults-keep user_id p cards)

-- The default cards are cards of the user.
defaults-le :
    (user_id : ℕ) (cards : List SavedCard)
    → defaults user_id cards ≤ length (keep (λ c. c.user_id == user_id) cards)
defaults-le user_id [] = omega arith
defaults-le user_id (c ∷ cards) = ground (arith, defaults-le user_id cards)

-- What a user does with cards, and what a webhook adds.
pub data Call : Type 0 where
  choose remove : ℕ → ℕ → Call
  add : ℕ → ℕ → ℕ → ℕ → Call

abbrev pub run : Call → Payments → Payments
run (choose user_id card_id) = after (set_default_card user_id card_id)
run (remove user_id card_id) = after (remove_card user_id card_id)
run (add id flag_id user_id code) = after (save_card_from_verification id flag_id user_id code)

abbrev pub run_all : List Call → Payments → Payments
run_all [] p = p
run_all (c ∷ cs) p = run_all cs (run c p)

chosen_one :
    (user_id other : ℕ) (c : SavedCard) (cards : List SavedCard)
    → c.user_id ≡ other
    → defaults user_id cards ≤ 1
    → defaults user_id (save (record c { is_default = true }) (map (unset other) cards)) ≤ 1
chosen_one user_id other c cards own h = ground (
  arith,
  defaults-save user_id (record c { is_default = true }) (map (unset other) cards),
  defaults-unset user_id cards,
  defaults-unset_other user_id other cards,
)

run_one :
    (user_id : ℕ) (c : Call) (p : Payments)
    → defaults user_id p.cards ≤ 1
    → defaults user_id (run c p).cards ≤ 1
unfolding set_default_card remove_card save_card_from_verification
run_one user_id (choose other card_id) p h =
    let fits = λ (c : SavedCard). c.id == card_id && c.user_id == other in
    elim (Option-cases (find_first fits p.cards)) [
      | inl missing ↦ ground arith
      | inr (c, e) ↦
          ground (arith, chosen_one user_id other c p.cards, find_first-holds fits p.cards {x = c})
    ]
run_one user_id (remove other card_id) p h = ground (
  arith,
  defaults-keep user_id (λ (c : SavedCard). not (c.id == card_id && c.user_id == other)) p.cards,
)
run_one user_id (add id flag_id other code) p h =
    let added : SavedCard = record {
      id = id;
      user_id = other;
      authorization_code = code;
      is_default = length (keep (λ c. c.user_id == other) p.cards) == 0;
      created_at = p.bank.now;
    } in
    ground (arith, defaults-save user_id added p.cards, defaults-le user_id p.cards)

-- However cards are added, removed and chosen, no user has more than one default card.
pub run_all_one_default :
    (user_id : ℕ) (cs : List Call) (p : Payments)
    → defaults user_id p.cards ≤ 1
    → defaults user_id (run_all cs p).cards ≤ 1
run_all_one_default user_id [] p h = h
run_all_one_default user_id (c ∷ cs) p h =
    run_all_one_default user_id cs (run c p) (run_one user_id c p h)

no_default :
    (user_id : ℕ) (cards : List SavedCard)
    → defaults user_id cards ≡ 0
    → default_card user_id cards ≡ none
no_default user_id [] h = refl
no_default user_id (c ∷ cards) h = ground (arith, no_default user_id cards)

none_kept :
    (user_id : ℕ) (p : SavedCard → Bool) (cards : List SavedCard)
    → default_card user_id cards ≡ none
    → default_card user_id (keep p cards) ≡ none
none_kept user_id p [] e = refl
none_kept user_id p (c ∷ cards) e = ground (arith, none_kept user_id p cards)

-- Without the one default card there is none.
defaults-removed :
    (user_id : ℕ) (c : SavedCard) (cards : List SavedCard)
    → defaults user_id cards ≤ 1
    → default_card user_id cards ≡ some c
    → default_card user_id (keep (λ x. not (x.id == c.id && x.user_id == user_id)) cards) ≡ none
defaults-removed user_id c [] h e = refl
defaults-removed user_id c (x ∷ cards) h e = ground (
  arith,
  defaults-removed user_id c cards,
  no_default user_id cards,
  none_kept user_id (λ (y : SavedCard). not (y.id == c.id && y.user_id == user_id)) cards,
)

defaults-none :
    (user_id : ℕ) (cards : List SavedCard)
    → default_card user_id cards ≡ none
    → defaults user_id cards ≡ 0
defaults-none user_id [] h = refl
defaults-none user_id (c ∷ cards) h = ground (arith, defaults-none user_id cards)

-- Any removal, and a choice or a new card of another user.
abbrev pub spares : ℕ → Call → Bool
spares user_id (choose other card_id) = not (other == user_id)
spares user_id (remove other card_id) = true
spares user_id (add id flag_id other code) = not (other == user_id)

run-spares :
    (user_id : ℕ) (c : Call) (p : Payments)
    → spares user_id c ≡ true
    → defaults user_id p.cards ≡ 0
    → defaults user_id (run c p).cards ≡ 0
unfolding set_default_card remove_card save_card_from_verification
run-spares user_id (choose other card_id) p s h =
    let fits = λ (c : SavedCard). c.id == card_id && c.user_id == other in
    elim (Option-cases (find_first fits p.cards)) [
      | inl missing ↦ ground arith
      | inr (c, e) ↦ ground (
        arith,
        defaults-save user_id (record c { is_default = true }) (map (unset other) p.cards),
        defaults-unset_other user_id other p.cards,
        find_first-holds fits p.cards {x = c},
      )
    ]
run-spares user_id (remove other card_id) p s h = ground (
  arith,
  defaults-keep user_id (λ (c : SavedCard). not (c.id == card_id && c.user_id == other)) p.cards,
)
run-spares user_id (add id flag_id other code) p s h =
    let added : SavedCard = record {
      id = id;
      user_id = other;
      authorization_code = code;
      is_default = length (keep (λ c. c.user_id == other) p.cards) == 0;
      created_at = p.bank.now;
    } in
    ground (arith, defaults-save user_id added p.cards)

run_all-spares :
    (user_id : ℕ) (cs : List Call) (p : Payments)
    → every (spares user_id) cs ≡ true
    → defaults user_id p.cards ≡ 0
    → defaults user_id (run_all cs p).cards ≡ 0
run_all-spares user_id [] p s h = h
run_all-spares user_id (c ∷ cs) p s h =
    run_all-spares user_id cs (run c p) (ground (arith, s))
      (run-spares user_id c p (ground (arith, s)) h)

-- A user who removes the default card cannot pay by card, where the provider is configured, until they
-- choose a card or add one: after whatever removals, and whatever other users do with cards, the charge
-- of a ride is refused for lack of a saved card, whatever other cards the user has.
pub remove_card_unpayable :
    (answers : ℕ → Answer) (fresh : Fresh) (ride_id user_id amount : ℕ) (cs : List Call)
    (p : Payments) {c : SavedCard}
    → defaults user_id p.cards ≤ 1
    → default_card user_id p.cards ≡ some c
    → every (spares user_id) cs ≡ true
    → result
        (charge_saved_card true answers fresh ride_id user_id amount)
        (run_all cs (run (remove user_id c.id) p))
      ≡ err no_saved_card
unfolding charge_saved_card remove_card
remove_card_unpayable answers fresh ride_id user_id amount cs p {c} h e s =
    let left = run (remove user_id c.id) p in
    let gone = defaults-none user_id left.cards (defaults-removed user_id c p.cards h e) in
    ground
      (arith, no_default user_id (run_all cs left).cards (run_all-spares user_id cs left s gone))
