-- ===== src/Paper/Broker/CancelRoom.antt =====
-- `cancel` keeps the counts within the limits.
use tx_trader.Common.{
  ℕ, ◌≡◌, refl, false, ◌||◌, not, Option, none, some, raise_if, Ensures, Ensures->>=, Ensures-bind,
  Ensures-if, leb, ltb, ◌==◌, length, get, eq_nat, eq_pair, eq_triple, inl, inr, Bool-cases,
}
use tx_trader.Paper.Contracts.{PaperOrder, check_paper_order, is_closed}
use tx_trader.Paper.Transition.{is_cancelled_status, validate_order_transition}
use tx_trader.Paper.Events.{CancelIntent, PaperEventType, PaperEventPayload}
use tx_trader.Paper.Broker.State.{
  OrderCommandResult, Broker, BrokerFault, within, BrokerState, OutcomeRecord,
}
use tx_trader.Paper.Broker.Commands.{matching_prec, make_event}
use tx_trader.Paper.Broker.Cancel.{
  CancelEvaluation, cancelled_at, evaluate_found, evaluate_cancel, can_cache, with_cancel,
  stage_cancelled, cancel_after, cancel_by, differs_from, with_session, cancel,
}
use tx_trader.Paper.Broker.Room.{IsLimited, LimitedResult, room_for_one, append_rejection-IsLimited}

-- An evaluation that cancels has room for its event.
abbrev HasRoom : Broker → BrokerState → CancelEvaluation → Type 0
HasRoom b s (CancelEvaluation.cancels q) = leb b.limits.max_events (length s.events) ≡ false
HasRoom b s _ = Unit {0}

evaluate_cancel-HasRoom :
    (b : Broker) (s : BrokerState) (c : CancelIntent) (o : Option PaperOrder)
    → Ensures (evaluate_cancel b s c o) (HasRoom b s)
unfolding evaluate_cancel evaluate_found
evaluate_cancel-HasRoom b s c none = tt
evaluate_cancel-HasRoom b s c (some o) =
    let P = HasRoom b s in
    Ensures-if P
      (not (o.intent.strategy_id == c.strategy_id)
        || not (o.intent.client_order_id == c.client_order_id))
      _ _ (λ _. tt)
      λ _.
        Ensures-if P (ltb c.requested_at o.updated_at) _ _ (λ _. tt)
          λ _.
            Ensures-if P (is_cancelled_status o.status) _ _ (λ _. tt)
              λ _.
                Ensures-if P (is_closed o.status) _ _ (λ _. tt)
                  λ _.
                    Ensures-if P (leb b.limits.max_events (length s.events)) _ _ (λ _. tt)
                      λ room.
                        Ensures->>= P
                          (within BrokerFault.of_order_check
                            (check_paper_order matching_prec (cancelled_at o c.requested_at)))
                          _
                          λ _ _.
                            Ensures->>= P
                              (within BrokerFault.of_order_check
                                (validate_order_transition o (cancelled_at o c.requested_at)))
                              _ (λ _ _. room)

with_cancel-IsLimited :
    (b : Broker) (s : BrokerState) (c : CancelIntent) (r : Option OutcomeRecord)
    (outcome : OrderCommandResult)
    → IsLimited b s
    → IsLimited b (with_cancel b s c r outcome)
unfolding with_cancel
with_cancel-IsLimited b s c r outcome h = elim (Bool-cases (can_cache b s r)) [
  | inl x ↦ rw x h
  | inr x ↦ rw x h
]

with_cancel-events :
    (b : Broker) (s : BrokerState) (c : CancelIntent) (r : Option OutcomeRecord)
    (outcome : OrderCommandResult)
    → (with_cancel b s c r outcome).events ≡ s.events
unfolding with_cancel
with_cancel-events b s c r outcome = elim (Bool-cases (can_cache b s r)) [
  | inl x ↦ rw x refl
  | inr x ↦ rw x refl
]

stage_cancelled-LimitedResult :
    (b : Broker) (s : BrokerState) (c : CancelIntent) (r : Option OutcomeRecord) (q : PaperOrder)
    (session sequence : Option ℕ)
    → leb b.limits.max_events (length s.events) ≡ false
    → IsLimited b s
    → Ensures (stage_cancelled b s c r q session sequence) (LimitedResult b)
unfolding stage_cancelled
stage_cancelled-LimitedResult b s c r q session sequence room h =
    let outcome = OrderCommandResult.of_order q in
    let kept = with_cancel-IsLimited b s c r outcome h in
    Ensures->>= (LimitedResult b)
      (make_event b s.next_paper_sequence PaperEventType.order_cancelled
        (PaperEventPayload.of_order q) c.requested_at session sequence)
      _
      (λ e _. (
        rw (with_cancel-events b s c r outcome) (room_for_one s.events e b.limits.max_events room),
        kept.1,
        kept.2,
      ))

cancel_after-LimitedResult :
    (b : Broker) (kept s : BrokerState) (c : CancelIntent) (r : Option OutcomeRecord)
    (evaluation : CancelEvaluation)
    → IsLimited b kept
    → IsLimited b s
    → HasRoom b s evaluation
    → Ensures (cancel_after b kept s c r evaluation) (LimitedResult b)
unfolding cancel_after
cancel_after-LimitedResult b kept s c r (CancelEvaluation.already o) k h room = k
cancel_after-LimitedResult b kept s c r (CancelEvaluation.refused rejection) k h room =
    Ensures-if (LimitedResult b) (not (can_cache b s r)) _ _ (λ _. k)
      λ _.
        Ensures-bind (IsLimited b) (LimitedResult b) _ _
          (append_rejection-IsLimited b
            (with_cancel b s c r (OrderCommandResult.of_rejection rejection)) rejection
            (with_cancel-IsLimited b s c r (OrderCommandResult.of_rejection rejection) h))
          (λ t g. g)
cancel_after-LimitedResult b kept s c r (CancelEvaluation.cancels q) k h room =
    Ensures-bind (LimitedResult b) (LimitedResult b) _ _
      (stage_cancelled-LimitedResult b s c r q c.source_session_id c.source_ingest_sequence room h)
      (λ t g. g)

cancel_by-LimitedResult :
    (b : Broker) (kept s : BrokerState) (c : CancelIntent) (r : Option OutcomeRecord)
    (cached : Option OrderCommandResult)
    → IsLimited b kept
    → IsLimited b s
    → Ensures (cancel_by b kept s c r cached) (LimitedResult b)
unfolding cancel_by
cancel_by-LimitedResult b kept s c r (some cached) k h = k
cancel_by-LimitedResult b kept s c r none k h =
    Ensures-bind (HasRoom b s) (LimitedResult b) _ _
      (evaluate_cancel-HasRoom b s c (get s.orders c.paper_order_id))
      (λ evaluation room. cancel_after-LimitedResult b kept s c r evaluation k h room)

with_session-IsLimited :
    (b : Broker) (s : BrokerState) (session : Option ℕ)
    → IsLimited b s
    → IsLimited b (with_session s session)
with_session-IsLimited b s none h = h
with_session-IsLimited b s (some given) h = h

pub cancel-LimitedResult :
    (b : Broker) (s : BrokerState) (c : CancelIntent)
    → IsLimited b s
    → Ensures (cancel b s c) (LimitedResult b)
unfolding cancel
cancel-LimitedResult b s c h =
    Ensures->>= (LimitedResult b)
      (raise_if
        (differs_from c.source_session_id s.effective_session
          || differs_from c.source_session_id s.bound_session)
        BrokerFault.cancel_session_mismatch)
      _
      λ _ _.
        cancel_by-LimitedResult b s (with_session s c.source_session_id) c _ _ h
          (with_session-IsLimited b s c.source_session_id h)
