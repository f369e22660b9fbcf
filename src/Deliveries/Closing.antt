-- ===== src/Deliveries/Closing.antt =====
-- The order of a delivery's statuses over any calls.
use ryda.Base.{ℕ, List, [], ◌∷◌, after}
use ryda.Users.{user_keyed}
use ryda.Deliveries.{
  select_courier, reconcile_cod_shortfall, rate_driver, mark_pickup_arrived, mark_picked_up,
  mark_in_transit, cancel_delivery,
}
use ryda.Deliveries.Acceptance.{accept_delivery}
use ryda.Deliveries.Payment.{Context}
use ryda.Deliveries.Completion.{Proof, mark_delivered}
use ryda.Deliveries.Entities.{Status, CancelledBy, order_keyed, Deliveries}
use ryda.Deliveries.Cancelled.{cancel-From}
use ryda.Deliveries.Handover.{deliver-From}
use ryda.Deliveries.Progress.{From, Moved-From, accept-From}
use ryda.Deliveries.Steps.{
  arrive-Moved, pick_up-Moved, transit-Moved, select-Moved, reconcile-Moved, rate-Moved,
}

-- The calls on a delivery.
pub data Call : Type 0 where
  accept : (log_id id driver_id : ℕ) → Call
  arrive pick_up transit : (id driver_id : ℕ) → Call
  deliver : Context → Proof → (id driver_id : ℕ) → Call
  cancel : (log_id id actor_id : ℕ) → CancelledBy → Call
  select : List ℕ → (id customer_id driver_id : ℕ) → Call
  reconcile : ℕ → Call
  rate : (id customer_id rating : ℕ) → Call

abbrev pub run : Call → Deliveries → Deliveries
run (accept log_id id driver_id) = after (accept_delivery log_id id driver_id)
run (arrive id driver_id) = after (mark_pickup_arrived id driver_id)
run (pick_up id driver_id) = after (mark_picked_up id driver_id)
run (transit id driver_id) = after (mark_in_transit id driver_id)
run (deliver context proof id driver_id) = after (mark_delivered context proof id driver_id)
run (cancel log_id id actor_id who) = after (cancel_delivery log_id id actor_id who)
run (select found id customer_id driver_id) = after (select_courier found id customer_id driver_id)
run (reconcile id) = after (reconcile_cod_shortfall id)
run (rate id customer_id rating) = after (rate_driver id customer_id rating)

abbrev pub run_all : List Call → Deliveries → Deliveries
run_all [] d = d
run_all (c ∷ cs) d = run_all cs (run c d)

run-From : (id : ℕ) (s : Status) (c : Call) (d : Deliveries) → From id s d → From id s (run c d)
run-From id s (accept log_id i driver_id) d h = accept-From id log_id i driver_id s d h
run-From id s (arrive i driver_id) d h =
    Moved-From id i s d (after (mark_pickup_arrived i driver_id) d) (arrive-Moved i driver_id d) h
run-From id s (pick_up i driver_id) d h =
    Moved-From id i s d (after (mark_picked_up i driver_id) d) (pick_up-Moved i driver_id d) h
run-From id s (transit i driver_id) d h =
    Moved-From id i s d (after (mark_in_transit i driver_id) d) (transit-Moved i driver_id d) h
run-From id s (deliver context proof i driver_id) d h =
    deliver-From id i driver_id s context proof d h
run-From id s (cancel log_id i actor_id who) d h = cancel-From id log_id i actor_id who s d h
run-From id s (select found i customer_id driver_id) d h =
    Moved-From id i s d (after (select_courier found i customer_id driver_id) d)
      (select-Moved found i customer_id driver_id d) h
run-From id s (reconcile i) d h =
    Moved-From id i s d (after (reconcile_cod_shortfall i) d) (reconcile-Moved i d) h
run-From id s (rate i customer_id rating) d h =
    Moved-From id i s d (after (rate_driver i customer_id rating) d)
      (rate-Moved i customer_id rating d) h

-- However the calls on deliveries follow each other, a delivery only moves forward from the status
-- it had: open, accepted, at the pickup, picked up, in transit, and then delivered or cancelled; one
-- that was delivered or cancelled stays so.
pub run_all-From :
    (id : ℕ) (s : Status) (cs : List Call) (d : Deliveries) → From id s d → From id s (run_all cs d)
run_all-From id s [] d h = h
run_all-From id s (c ∷ cs) d h = run_all-From id s cs (run c d) (run-From id s c d h)
