-- ===== src/Deliveries/Cancelled.antt =====
-- A cancellation moves a delivery forward.
use ryda.Base.{
  ℕ, ◌≡◌, refl, false, some, arith, after, result, pure, Result, ok, err, ◌>>=◌, ◌>>◌, lookup,
  lookup-key_of, Option-cases, inl, inr,
}
use ryda.Users.{user_keyed}
use ryda.Deliveries.{
  find_by_id, check_cancel, claim_cancellation, release_driver, cancel_delivery, emit,
}
use ryda.Deliveries.Entities.{
  Status, cancelled, is_closed, CancelledBy, Order, order_keyed, status_changed, Deliveries,
}
use ryda.Deliveries.Progress.{From, save-From, same-From}

check_cancel-Found :
    (i actor_id : ℕ) (who : CancelledBy) (d : Deliveries) {o : Order}
    → result (check_cancel i actor_id who) d ≡ ok o
    → (lookup i d.orders ≡ some o) × (is_closed o.status ≡ false)
unfolding check_cancel find_by_id
check_cancel-Found i actor_id who d {o} h = ground arith

-- What the cancellation leaves after the row is saved.
release_orders :
    (log_id : ℕ) (o : Order) (d : Deliveries)
    → (after (release_driver log_id o) d).orders ≡ d.orders
unfolding release_driver
release_orders log_id o d = elim (Option-cases o.driver_id) [
  | inl nobody ↦ ground arith
  | inr (driver_id, e) ↦ ground arith
]

finish_release :
    (o : Order) (d : Deliveries) (released : Result (Unit {0}) × Deliveries)
    → (after ((λ _. released) >> (emit (status_changed o.id cancelled) >> pure o)) d).orders
      ≡ released.1.orders
finish_release o d (err _, d') = refl
finish_release o d (ok _, d') = refl

-- The row, if it is still as it was read, and then the driver.
claim-From :
    (id now : ℕ) (who : CancelledBy) (s : Status) (o : Order) (d : Deliveries)
    → lookup o.id d.orders ≡ some o
    → is_closed o.status ≡ false
    → From id s d
    → From id s (after (claim_cancellation now who o) d)
unfolding claim_cancellation
claim-From id now who s o d e unclosed h =
    save-From id s o
      (record o { status = cancelled; cancelled_at = some now; cancelled_by = some who }) d
      (after (claim_cancellation now who o) d) refl e (ground arith) (ground arith) h

after_claim :
    (log_id : ℕ) (o : Order) (d : Deliveries) (claimed : Result (Unit {0}) × Deliveries)
    → (after
        ((λ _. claimed)
          >> (release_driver log_id o >> (emit (status_changed o.id cancelled) >> pure o)))
        d).orders
      ≡ claimed.1.orders
after_claim log_id o d (err _, d') = refl
after_claim log_id o d (ok _, d') =
    rw (finish_release o d' (release_driver log_id o d'), release_orders log_id o d') refl

abbrev gone_at : ℕ → CancelledBy → Order → Order
gone_at now who o = record o {
  status = cancelled;
  cancelled_at = some now;
  cancelled_by = some who;
}

finish_cancel :
    (id log_id i : ℕ) (who : CancelledBy) (s : Status) (d : Deliveries)
    (checked : Result Order × Deliveries)
    → checked.1 ≡ d
    → ((o : Order) → checked.0 ≡ ok o → (lookup i d.orders ≡ some o) × (is_closed o.status ≡ false))
    → From id s d
    → From id s (
        after
          ((λ _. checked) >>= λ o. (λ d1.
            let gone = gone_at d1.payments.bank.now who o in
            (claim_cancellation d1.payments.bank.now who o
                >> (release_driver log_id gone
                    >> (emit (status_changed gone.id cancelled) >> pure gone)))
              d1))
          d)
finish_cancel id log_id i who s d (err _, d1) e f h = rw e h
finish_cancel id log_id i who s d (ok o, d1) e f h =
    let now = d1.payments.bank.now in
    let gone = gone_at now who o in
    let claimed = claim_cancellation now who o d1 in
    let (eo, unclosed) = f o refl in
    same-From id s (claimed.1)
      (after
        (claim_cancellation now who o
          >> (release_driver log_id gone >> (emit (status_changed gone.id cancelled) >> pure gone)))
        d1)
      (after_claim log_id gone d1 claimed)
      (claim-From id now who s o d1 (rw e (lookup-key_of i {v = o} d.orders eo)) unclosed (rw e h))

check_cancel_pure :
    (i actor_id : ℕ) (who : CancelledBy) (d : Deliveries)
    → after (check_cancel i actor_id who) d ≡ d
unfolding check_cancel find_by_id
check_cancel_pure i actor_id who d = ground arith

pub cancel-From :
    (id log_id i actor_id : ℕ) (who : CancelledBy) (s : Status) (d : Deliveries)
    → From id s d
    → From id s (after (cancel_delivery log_id i actor_id who) d)
unfolding cancel_delivery
cancel-From id log_id i actor_id who s d h =
    finish_cancel id log_id i who s d (check_cancel i actor_id who d)
      (check_cancel_pure i actor_id who d) (λ o e. check_cancel-Found i actor_id who d {o = o} e) h
