-- ===== src/Paper/Broker/Commands.antt =====
-- tx_trade/orders/paper_broker.py: `submit` and `cancel`, with the journal's events.
use tx_trader.Common.{
  ℕ, ◌+◌, Bool, ◌||◌, Option, none, some, [], ◌∷◌, ◌++◌, Outcome, ok, ◌>>=◌, ◌>>◌, leb, ◌==◌,
  if◌then◌else◌, length, get, put, eq_nat, eq_pair,
}
use tx_trader.Paper.Contracts.{OrderStatus, OrderIntent, PaperOrder, check_paper_order}
use tx_trader.Paper.Events.{
  RejectionCode, PaperRejection, PaperEventType, PaperEventPayload, PaperEvent, check_event,
}
use tx_trader.Paper.Broker.State.{
  OrderCommandResult, BrokerFault, within, Broker, OutcomeRecord, find_outcome, has_alternate,
  first_outcome, with_alternate, BrokerState, open_order_count, resolve_cached_outcome,
  rejection_value,
}
use tx_trader.Paper.Broker.Names.{order_id, event_id}

-- The precision of `MATCHING_CONTEXT`.
abbrev pub matching_prec : ℕ
matching_prec = 34

-- The event that `_make_event` builds, before its checks.
abbrev pub event_of :
    Broker → ℕ → PaperEventType → PaperEventPayload → ℕ → Option ℕ → Option ℕ → PaperEvent
event_of b sequence event_type payload occurred_at session_id ingest_sequence = record {
  paper_run_id = b.paper_run_id;
  paper_event_id = event_id b sequence event_type;
  paper_sequence = sequence;
  event_type = event_type;
  payload = payload;
  occurred_at = occurred_at;
  source_session_id = session_id;
  source_ingest_sequence = ingest_sequence;
}

-- `_make_event`
unfoldable pub make_event :
    Broker
    → ℕ
    → PaperEventType
    → PaperEventPayload
    → ℕ
    → Option ℕ
    → Option ℕ
    → Outcome BrokerFault PaperEvent
make_event b sequence event_type payload occurred_at session_id ingest_sequence = do
  within BrokerFault.of_event_check
      (check_event (event_of b sequence event_type payload occurred_at session_id ingest_sequence))
  ok (event_of b sequence event_type payload occurred_at session_id ingest_sequence)

-- The event joins the journal.
abbrev pub with_event : BrokerState → PaperEvent → BrokerState
with_event s e = record s {
  events = s.events ++ (e ∷ []);
  next_paper_sequence = s.next_paper_sequence + 1;
}

abbrev pub with_version : BrokerState → BrokerState
with_version s = record s { snapshot_version = s.snapshot_version + 1 }

-- The part that `_append_rejection_event` and `_stage_batch_rejection` share: a rejection goes into
-- the journal if there is room.
unfoldable pub journal_rejection :
    Broker → BrokerState → PaperRejection → Option ℕ → Option ℕ → Outcome BrokerFault BrokerState
journal_rejection b s r session_id ingest_sequence =
    if leb b.limits.max_events (length s.events) then ok s else do
      e ←
          make_event b s.next_paper_sequence PaperEventType.order_rejected
            (PaperEventPayload.of_rejection r) r.rejected_at session_id ingest_sequence
      ok (with_event s e)

-- `_append_rejection_event`, and the new version if it added none: both end with one more.
unfoldable pub append_rejection :
    Broker → BrokerState → PaperRejection → Outcome BrokerFault BrokerState
append_rejection b s r = do t ← journal_rejection b s r none none; ok (with_version t)

abbrev pub with_submit : BrokerState → ℕ × ℕ → OutcomeRecord → BrokerState
with_submit s key r = record s { submit_outcomes = put s.submit_outcomes key r }

-- `_stage_rejection`
unfoldable pub stage_rejection :
    Broker → BrokerState → PaperRejection → ℕ × ℕ → OutcomeRecord → Outcome BrokerFault BrokerState
stage_rejection b s r key outcome = append_rejection b (with_submit s key outcome) r

abbrev pub Result : Type 0
Result = Outcome BrokerFault (OrderCommandResult × BrokerState)

-- `_commit_new_submit_rejection`
unfoldable pub commit_new_submit_rejection :
    Broker → BrokerState → ℕ × ℕ → ℕ → PaperRejection → Result
commit_new_submit_rejection b s key digest r =
    if leb b.limits.max_orders (length s.submit_outcomes)
    then ok (OrderCommandResult.of_rejection r, s)
    else do
      t ← stage_rejection b s r key (first_outcome digest (OrderCommandResult.of_rejection r))
      ok (OrderCommandResult.of_rejection r, t)

abbrev pub submit_key : OrderIntent → ℕ × ℕ
submit_key i = (i.strategy_id, i.client_order_id)

-- The rejection of this intent.
abbrev pub submit_rejection : Broker → OrderIntent → RejectionCode → PaperRejection
submit_rejection b i code =
    rejection_value b i.strategy_id i.client_order_id code i.created_at
      (some (order_id b i.strategy_id i.client_order_id))

abbrev pub accepted_order : Broker → OrderIntent → PaperOrder
accepted_order b i = record {
  paper_run_id = b.paper_run_id;
  paper_order_id = order_id b i.strategy_id i.client_order_id;
  intent = i;
  status = OrderStatus.accepted;
  filled_quantity = 0;
  remaining_quantity = i.quantity;
  average_fill_price = none;
  accepted_at = some i.created_at;
  updated_at = i.created_at;
}

-- The new order with its outcome, its ordinal and the sequence from which on it may match.
abbrev pub with_order : BrokerState → PaperOrder → ℕ → Option ℕ → BrokerState
with_order s o digest eligibility = record s {
  orders = put s.orders o.paper_order_id o;
  submit_outcomes =
      put s.submit_outcomes (submit_key o.intent)
        (first_outcome digest (OrderCommandResult.of_order o));
  acceptance_ordinal = put s.acceptance_ordinal o.paper_order_id s.next_acceptance_ordinal;
  eligibility_sequence = put s.eligibility_sequence o.paper_order_id eligibility;
  next_acceptance_ordinal = s.next_acceptance_ordinal + 1;
}

-- The part that `submit` and `_stage_batch_submit` share: the order passes its checks and is
-- accepted, with an event.
unfoldable pub accept_order :
    Broker → BrokerState → OrderIntent → Option ℕ → Option ℕ → Option ℕ → Result
accept_order b s i session_id ingest_sequence eligibility = do
  within BrokerFault.of_order_check (check_paper_order matching_prec (accepted_order b i))
  e ←
      make_event b s.next_paper_sequence PaperEventType.order_accepted
        (PaperEventPayload.of_order (accepted_order b i)) i.created_at session_id ingest_sequence
  ok (
    OrderCommandResult.of_order (accepted_order b i),
    with_event (with_order s (accepted_order b i) (b.submit_digest i) eligibility) e,
  )

-- The second test of capacity.
unfoldable pub is_full : Broker → BrokerState → Bool
is_full b s =
    leb b.limits.max_orders (length s.orders)
    || leb b.limits.max_open_orders (open_order_count s.orders)
    || leb b.limits.max_events (length s.events)

abbrev pub or_last : Option ℕ → Option ℕ → Option ℕ
or_last none last = last
or_last (some n) last = some n

-- `submit` of a new key, within the session `effective`.
unfoldable pub submit_within : Broker → BrokerState → OrderIntent → Option ℕ → Result
submit_within b s i effective =
    if leb b.limits.max_orders (length s.submit_outcomes)
    then ok
        (OrderCommandResult.of_rejection (submit_rejection b i RejectionCode.capacity_exceeded), s)
    else if is_full b s
    then commit_new_submit_rejection b (record s { effective_session = effective }) (submit_key i)
        (b.submit_digest i) (submit_rejection b i RejectionCode.capacity_exceeded)
    else do
      (result, t) ←
          accept_order b (record s { effective_session = effective }) i i.source_session_id
            i.source_ingest_sequence (or_last i.source_ingest_sequence s.last_sequence)
      ok (result, with_version t)

-- The session that the state takes from a command, if they do not differ.
unfoldable pub joined_session : Option ℕ → Option ℕ → Option (Option ℕ)
joined_session effective none = some effective
joined_session none (some given) = some (some given)
joined_session (some effective) (some given) =
    if given == effective then some (some effective) else none

unfoldable pub submit_new : Broker → BrokerState → OrderIntent → Option (Option ℕ) → Result
submit_new b s i none =
    commit_new_submit_rejection b s (submit_key i) (b.submit_digest i)
      (submit_rejection b i RejectionCode.invalid_intent)
submit_new b s i (some effective) = submit_within b s i effective

-- `submit` of a key that has a record, which does or does not hold this digest.
unfoldable pub submit_known :
    Broker → BrokerState → OrderIntent → OutcomeRecord → Option OrderCommandResult → Result
submit_known b s i r (some cached) = ok (resolve_cached_outcome s.orders cached, s)
submit_known b s i r none =
    let conflict = submit_rejection b i RejectionCode.idempotency_conflict in
    if has_alternate r then ok (OrderCommandResult.of_rejection conflict, s) else do
      t ←
          stage_rejection b s conflict (submit_key i)
            (with_alternate r (b.submit_digest i) (OrderCommandResult.of_rejection conflict))
      ok (OrderCommandResult.of_rejection conflict, t)

unfoldable pub submit_by : Broker → BrokerState → OrderIntent → Option OutcomeRecord → Result
submit_by b s i none = submit_new b s i (joined_session s.effective_session i.source_session_id)
submit_by b s i (some r) = submit_known b s i r (find_outcome r (b.submit_digest i))

unfoldable pub submit : Broker → BrokerState → OrderIntent → Result
submit b s i = submit_by b s i (get s.submit_outcomes (submit_key i))
