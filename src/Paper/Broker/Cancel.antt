-- ===== src/Paper/Broker/Cancel.antt =====
-- tx_trade/orders/paper_broker.py: `cancel`.
use tx_trader.Common.{
  ℕ, Bool, false, ◌||◌, not, Option, none, some, Outcome, ok, ◌>>=◌, ◌>>◌, raise_if, ltb, leb, ◌==◌,
  if◌then◌else◌, length, get, put, eq_nat, eq_pair, eq_triple, or_else,
}
use tx_trader.Paper.Contracts.{OrderStatus, PaperOrder, is_closed, check_paper_order}
use tx_trader.Paper.Transition.{is_cancelled_status, validate_order_transition}
use tx_trader.Paper.Events.{
  RejectionCode, CancelIntent, PaperRejection, PaperEventType, PaperEventPayload,
}
use tx_trader.Paper.Broker.State.{
  OrderCommandResult, BrokerFault, within, Broker, OutcomeRecord, find_outcome, has_alternate,
  first_outcome, with_alternate, BrokerState, resolve_cached_outcome, rejection_value,
}
use tx_trader.Paper.Broker.Commands.{
  Result, matching_prec, make_event, with_event, with_version, append_rejection,
}

-- What `_evaluate_cancel` returns: an order that is cancelled already, a rejection, or an order to
-- cancel, with its event.
pub data CancelEvaluation : Type 0 where
  already : PaperOrder → CancelEvaluation
  refused : PaperRejection → CancelEvaluation
  cancels : PaperOrder → CancelEvaluation

abbrev pub cancel_rejection : Broker → CancelIntent → RejectionCode → PaperRejection
cancel_rejection b c code =
    rejection_value b c.strategy_id c.client_order_id code c.requested_at (some c.paper_order_id)

-- `replace(order, status=CANCELLED, updated_at=...)`
abbrev pub cancelled_at : PaperOrder → ℕ → PaperOrder
cancelled_at o at = record o { status = OrderStatus.cancelled; updated_at = at }

unfoldable pub evaluate_found :
    Broker → BrokerState → CancelIntent → PaperOrder → Outcome BrokerFault CancelEvaluation
evaluate_found b s c o =
    if not (o.intent.strategy_id == c.strategy_id)
      || not (o.intent.client_order_id == c.client_order_id)
    then ok (CancelEvaluation.refused (cancel_rejection b c RejectionCode.unknown_order))
    else if ltb c.requested_at o.updated_at
    then ok (CancelEvaluation.refused (cancel_rejection b c RejectionCode.invalid_intent))
    else if is_cancelled_status o.status
    then ok (CancelEvaluation.already o)
    else if is_closed o.status
    then ok (CancelEvaluation.refused (cancel_rejection b c RejectionCode.order_terminal))
    else if leb b.limits.max_events (length s.events)
    then ok (CancelEvaluation.refused (cancel_rejection b c RejectionCode.capacity_exceeded))
    else do
      within BrokerFault.of_order_check
          (check_paper_order matching_prec (cancelled_at o c.requested_at))
      within BrokerFault.of_order_check
          (validate_order_transition o (cancelled_at o c.requested_at))
      ok (CancelEvaluation.cancels (cancelled_at o c.requested_at))

-- `_evaluate_cancel`
unfoldable pub evaluate_cancel :
    Broker → BrokerState → CancelIntent → Option PaperOrder → Outcome BrokerFault CancelEvaluation
evaluate_cancel b s c none =
    ok (CancelEvaluation.refused (cancel_rejection b c RejectionCode.unknown_order))
evaluate_cancel b s c (some o) = evaluate_found b s c o

abbrev pub cancel_key : CancelIntent → ℕ × ℕ × ℕ
cancel_key c = (c.paper_order_id, c.strategy_id, c.client_order_id)

-- `can_cache`
unfoldable pub can_cache : Broker → BrokerState → Option OutcomeRecord → Bool
can_cache b s none = ltb (length s.cancel_outcomes) b.limits.max_orders
can_cache b s (some r) = not (has_alternate r)

abbrev pub cached_record : Option OutcomeRecord → ℕ → OrderCommandResult → OutcomeRecord
cached_record none digest outcome = first_outcome digest outcome
cached_record (some r) digest outcome = with_alternate r digest outcome

-- The outcome joins the cache, if the cache takes it.
unfoldable pub with_cancel :
    Broker → BrokerState → CancelIntent → Option OutcomeRecord → OrderCommandResult → BrokerState
with_cancel b s c r outcome =
    if can_cache b s r
    then record s {
      cancel_outcomes =
          put s.cancel_outcomes (cancel_key c) (cached_record r (b.cancel_digest c) outcome);
    }
    else s

-- The part that `cancel` and `_stage_batch_cancel` share: the cancelled order and its event.
unfoldable pub stage_cancelled :
    Broker
    → BrokerState
    → CancelIntent
    → Option OutcomeRecord
    → PaperOrder
    → Option ℕ
    → Option ℕ
    → Result
stage_cancelled b s c r o session_id ingest_sequence = do
  e ←
      make_event b s.next_paper_sequence PaperEventType.order_cancelled
        (PaperEventPayload.of_order o) c.requested_at session_id ingest_sequence
  ok (
    OrderCommandResult.of_order o,
    with_event
        (record (with_cancel b s c r (OrderCommandResult.of_order o)) {
          orders = put s.orders o.paper_order_id o;
        })
        e,
  )

-- The end of `cancel`, in the state `s`; `kept` is the committed state.
unfoldable pub cancel_after :
    Broker
    → (kept s : BrokerState) → CancelIntent
    → Option OutcomeRecord
    → CancelEvaluation
    → Result
cancel_after b kept s c r (CancelEvaluation.already o) = ok (OrderCommandResult.of_order o, kept)
cancel_after b kept s c r (CancelEvaluation.refused rejection) =
    if not (can_cache b s r) then ok (OrderCommandResult.of_rejection rejection, kept) else do
      t ←
          append_rejection b (with_cancel b s c r (OrderCommandResult.of_rejection rejection))
            rejection
      ok (OrderCommandResult.of_rejection rejection, t)
cancel_after b kept s c r (CancelEvaluation.cancels o) = do
  (result, t) ← stage_cancelled b s c r o c.source_session_id c.source_ingest_sequence
  ok (result, with_version t)

abbrev pub cached_in : Option OutcomeRecord → ℕ → Option OrderCommandResult
cached_in none digest = none
cached_in (some r) digest = find_outcome r digest

-- A request that is in the cache, or one that is evaluated.
unfoldable pub cancel_by :
    Broker
    → (kept s : BrokerState) → CancelIntent
    → Option OutcomeRecord
    → Option OrderCommandResult
    → Result
cancel_by b kept s c r (some cached) = ok (resolve_cached_outcome s.orders cached, kept)
cancel_by b kept s c r none = do
  evaluation ← evaluate_cancel b s c (get s.orders c.paper_order_id)
  cancel_after b kept s c r evaluation

abbrev pub differs_from : Option ℕ → Option ℕ → Bool
differs_from none bound = false
differs_from (some given) none = false
differs_from (some given) (some bound) = not (given == bound)

-- The state with the request's session, if it has none yet.
abbrev pub with_session : BrokerState → Option ℕ → BrokerState
with_session s none = s
with_session s (some given) = record s {
  effective_session = some (or_else s.effective_session given);
}

unfoldable pub cancel : Broker → BrokerState → CancelIntent → Result
cancel b s c = do
  raise_if
      (differs_from c.source_session_id s.effective_session
        || differs_from c.source_session_id s.bound_session)
      BrokerFault.cancel_session_mismatch
  let r = get s.cancel_outcomes (cancel_key c)
  cancel_by b s (with_session s c.source_session_id) c r (cached_in r (b.cancel_digest c))
