-- ===== src/Paper/Broker/Cancelling.antt =====
-- Every call of `cancel` makes only changes that the contract allows.
use tx_trader.Common.{
  ℕ, ◌≡◌, refl, ap, ◌||◌, not, Option, none, some, [], ◌∷◌, ok, raise_if, Ensures, Ensures->>=,
  Ensures-bind, Ensures-if, Ensures-map, ltb, leb, ◌==◌, length, get, put, eq_nat, eq_pair,
  eq_triple, inl, inr, Bool-cases,
}
use tx_trader.Paper.Contracts.{PaperOrder, is_closed, check_paper_order}
use tx_trader.Paper.Transition.{is_cancelled_status, validate_order_transition}
use tx_trader.Paper.Events.{CancelIntent, PaperEventType, PaperEventPayload, PaperEvent}
use tx_trader.Paper.Broker.State.{
  OrderCommandResult, BrokerFault, within, Broker, OutcomeRecord, BrokerState,
}
use tx_trader.Paper.Broker.Commands.{matching_prec, with_event}
use tx_trader.Paper.Broker.Cancel.{
  CancelEvaluation, cancelled_at, evaluate_found, evaluate_cancel, cancel_key, can_cache,
  with_cancel, stage_cancelled, cancel_after, cached_in, cancel_by, differs_from, with_session,
  cancel,
}
use tx_trader.Paper.Broker.Changes.{core, Change, Changes, Changes_one}
use tx_trader.Paper.Broker.Allowed.{
  within-eq_ok, make_event-numbered, Allowed, ResultAllowed, append_rejection-Allowed,
}

-- What an evaluation that cancels has checked.
abbrev pub IsSoundEvaluation : Option PaperOrder → CancelEvaluation → Type 0
IsSoundEvaluation o (CancelEvaluation.cancels q) =
    (p : PaperOrder) × (o ≡ some p)
    × (check_paper_order matching_prec q ≡ ok tt)
    × (validate_order_transition p q ≡ ok tt)
IsSoundEvaluation o _ = Unit {0}

evaluate_found-IsSoundEvaluation :
    (b : Broker) (s : BrokerState) (c : CancelIntent) (o : PaperOrder)
    → Ensures (evaluate_found b s c o) (IsSoundEvaluation (some o))
unfolding evaluate_found
evaluate_found-IsSoundEvaluation b s c o =
    let P = IsSoundEvaluation (some o) in
    Ensures-if P
      (not (o.intent.strategy_id == c.strategy_id)
        || not (o.intent.client_order_id == c.client_order_id))
      _ _ (λ _. tt)
      λ _.
        Ensures-if P (ltb c.requested_at o.updated_at) _ _ (λ _. tt)
          λ _.
            Ensures-if P (is_cancelled_status o.status) _ _ (λ _. tt)
              λ _.
                Ensures-if P (is_closed o.status) _ _ (λ _. tt)
                  λ _.
                    Ensures-if P (leb b.limits.max_events (length s.events)) _ _ (λ _. tt)
                      λ _.
                        Ensures->>= P
                          (within BrokerFault.of_order_check
                            (check_paper_order matching_prec (cancelled_at o c.requested_at)))
                          _
                          λ _ checked.
                            Ensures->>= P
                              (within BrokerFault.of_order_check
                                (validate_order_transition o (cancelled_at o c.requested_at)))
                              _
                              (λ _ valid.
                                (o, refl, within-eq_ok _ _ checked, within-eq_ok _ _ valid))

pub evaluate_cancel-IsSoundEvaluation :
    (b : Broker) (s : BrokerState) (c : CancelIntent) (o : Option PaperOrder)
    → Ensures (evaluate_cancel b s c o) (IsSoundEvaluation o)
unfolding evaluate_cancel
evaluate_cancel-IsSoundEvaluation b s c none = tt
evaluate_cancel-IsSoundEvaluation b s c (some o) = evaluate_found-IsSoundEvaluation b s c o

pub core-with_cancel :
    (b : Broker) (s : BrokerState) (c : CancelIntent) (r : Option OutcomeRecord)
    (outcome : OrderCommandResult)
    → core (with_cancel b s c r outcome) ≡ core s
unfolding with_cancel
core-with_cancel b s c r outcome = elim (Bool-cases (can_cache b s r)) [
  | inl h ↦ rw h refl
  | inr h ↦ rw h refl
]

-- The cache of cancellations is no part of the contract.
pub with_cancel-Allowed :
    (b : Broker) (s : BrokerState) (c : CancelIntent) (r : Option OutcomeRecord)
    (outcome : OrderCommandResult)
    → Allowed b s (with_cancel b s c r outcome)
with_cancel-Allowed b s c r outcome = rw (core-with_cancel b s c r outcome) Changes.stay

-- An order's next snapshot with its event, in a state with this core.
next_snapshot :
    (b : Broker) (s : BrokerState) (w : BrokerState) (id : ℕ) (p q : PaperOrder) (e : PaperEvent)
    → core w ≡ core s
    → get s.orders id ≡ some p
    → check_paper_order matching_prec q ≡ ok tt
    → validate_order_transition p q ≡ ok tt
    → e.paper_sequence ≡ s.next_paper_sequence
    → Allowed b s (with_event (record w { orders = put s.orders q.paper_order_id q }) e)
next_snapshot b s w id p q e same_core found checked valid n =
    rw (ap (λ c. c.events) same_core, ap (λ c. c.next) same_core, ap (λ c. c.outcomes) same_core)
      (Changes.then (Changes_one (Change.advances id p q found checked valid))
        (Change.emits (e ∷ []) (n, tt)))

pub stage_cancelled-Allowed :
    (b : Broker) (s : BrokerState) (c : CancelIntent) (r : Option OutcomeRecord) (q : PaperOrder)
    (session sequence : Option ℕ)
    → IsSoundEvaluation (get s.orders c.paper_order_id) (CancelEvaluation.cancels q)
    → Ensures (stage_cancelled b s c r q session sequence) (ResultAllowed b s)
unfolding stage_cancelled
stage_cancelled-Allowed b s c r q session sequence (p, found, checked, valid) =
    Ensures-bind (λ e. e.paper_sequence ≡ s.next_paper_sequence) (ResultAllowed b s) _ _
      (make_event-numbered b s.next_paper_sequence PaperEventType.order_cancelled
        (PaperEventPayload.of_order q) c.requested_at session sequence)
      (λ e n.
        next_snapshot b s (with_cancel b s c r (OrderCommandResult.of_order q)) c.paper_order_id p q
          e (core-with_cancel b s c r (OrderCommandResult.of_order q)) found checked valid n)

cancel_after-Allowed :
    (b : Broker) (kept s : BrokerState) (c : CancelIntent) (r : Option OutcomeRecord)
    (evaluation : CancelEvaluation)
    → core kept ≡ core s
    → IsSoundEvaluation (get s.orders c.paper_order_id) evaluation
    → Ensures (cancel_after b kept s c r evaluation) (ResultAllowed b s)
unfolding cancel_after
cancel_after-Allowed b kept s c r (CancelEvaluation.already o) k sound = rw k Changes.stay
cancel_after-Allowed b kept s c r (CancelEvaluation.refused rejection) k sound =
    Ensures-if (ResultAllowed b s) (not (can_cache b s r)) _ _ (λ _. rw k Changes.stay)
      λ _.
        Ensures-bind (Allowed b s) (ResultAllowed b s) _ _
          (append_rejection-Allowed b s _ rejection
            (with_cancel-Allowed b s c r (OrderCommandResult.of_rejection rejection)))
          (λ t h. h)
cancel_after-Allowed b kept s c r (CancelEvaluation.cancels q) k sound =
    Ensures-bind (ResultAllowed b s) (ResultAllowed b s) _ _
      (stage_cancelled-Allowed b s c r q c.source_session_id c.source_ingest_sequence sound)
      (λ t h. h)

cancel_by-Allowed :
    (b : Broker) (kept s : BrokerState) (c : CancelIntent) (r : Option OutcomeRecord)
    (cached : Option OrderCommandResult)
    → core kept ≡ core s
    → Ensures (cancel_by b kept s c r cached) (ResultAllowed b s)
unfolding cancel_by
cancel_by-Allowed b kept s c r (some cached) k = rw k Changes.stay
cancel_by-Allowed b kept s c r none k =
    Ensures-bind (IsSoundEvaluation (get s.orders c.paper_order_id)) (ResultAllowed b s) _ _
      (evaluate_cancel-IsSoundEvaluation b s c (get s.orders c.paper_order_id))
      (λ evaluation sound. cancel_after-Allowed b kept s c r evaluation k sound)

core-with_session : (s : BrokerState) (session : Option ℕ) → core s ≡ core (with_session s session)
core-with_session s none = refl
core-with_session s (some given) = refl

pub cancel-Allowed :
    (b : Broker) (s : BrokerState) (c : CancelIntent) → Ensures (cancel b s c) (ResultAllowed b s)
unfolding cancel
cancel-Allowed b s c =
    Ensures->>= (ResultAllowed b s)
      (raise_if
        (differs_from c.source_session_id s.effective_session
          || differs_from c.source_session_id s.bound_session)
        BrokerFault.cancel_session_mismatch)
      _
      λ _ _.
        Ensures-map
          (cancel_by b s (with_session s c.source_session_id) c
            (get s.cancel_outcomes (cancel_key c))
            (cached_in (get s.cancel_outcomes (cancel_key c)) (b.cancel_digest c)))
          (cancel_by-Allowed b s (with_session s c.source_session_id) c _ _
            (core-with_session s c.source_session_id))
          (λ r h. rw (core-with_session s c.source_session_id) h)
