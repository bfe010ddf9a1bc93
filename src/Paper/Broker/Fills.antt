-- ===== src/Paper/Broker/Fills.antt =====
-- tx_trade/orders/paper_broker.py: a fill in `_stage_matches`, with its order, position and events.
use tx_trader.Common.{
  ℕ, ◌+◌, some, [], ◌∷◌, ◌++◌, Outcome, ok, raise, ◌>>=◌, ◌>>◌, raise_if, ltb, ◌==◌, if◌then◌else◌,
  put, eq_nat, eq_pair, eq_triple,
}
use tx_trader.Decimals.{sub}
use tx_trader.Paper.Contracts.{OrderStatus, PaperFault, PaperOrder, check_paper_order}
use tx_trader.Paper.Transition.{validate_order_transition}
use tx_trader.Paper.Position.{PositionFault, PaperFill, PaperPosition}
use tx_trader.Paper.Matching.{MatchSkipReason}
use tx_trader.Paper.Policies.{SlippageAssessment, FeeAssessment}
use tx_trader.Paper.Events.{PaperEventType, PaperEventPayload}
use tx_trader.Paper.Broker.State.{MarketDataEnvelope, BrokerFault, within, Broker}
use tx_trader.Paper.Broker.Names.{fill_id}
use tx_trader.Paper.Broker.Commands.{matching_prec, make_event}
use tx_trader.Paper.Broker.Batch.{with_capacity, Batch, causal_time, weighted_average, skip}

abbrev pub fill_of :
    Broker
    → MarketDataEnvelope
    → PaperOrder
    → ℕ
    → SlippageAssessment
    → FeeAssessment
    → ℕ
    → PaperFill
fill_of b m o quantity slippage fee ordinal = record {
  paper_run_id = b.paper_run_id;
  paper_fill_id =
      fill_id b o.paper_order_id m.session_id m.ingest_sequence ordinal b.config_fingerprint;
  paper_order_id = o.paper_order_id;
  strategy_id = o.intent.strategy_id;
  account_id = o.intent.account_id;
  instrument_id = o.intent.instrument_id;
  side = o.intent.side;
  quantity = quantity;
  execution_price = slippage.execution_price;
  fee = fee.fee;
  source_session_id = m.session_id;
  source_ingest_sequence = m.ingest_sequence;
  occurred_at = causal_time m;
  reference_price = some slippage.reference_price;
  slippage_amount = slippage.slippage_amount;
  fee_currency = fee.currency;
}

abbrev pub status_after : ℕ → ℕ → OrderStatus
status_after done quantity =
    if done == quantity then OrderStatus.filled else OrderStatus.partially_filled

-- The order after the fill, before its checks.
abbrev pub filled_order : PaperOrder → ℕ → ℕ → ℕ → PaperOrder
filled_order o done average at = record o {
  status = status_after done o.intent.quantity;
  filled_quantity = done;
  remaining_quantity = sub matching_prec o.intent.quantity done;
  average_fill_price = some average;
  updated_at = at;
}

-- `replace(order, ...)` with its checks, and the validation of the transition; the source would
-- raise on a remaining quantity below zero.
unfoldable pub update_order : PaperOrder → ℕ → ℕ → ℕ → ℕ → Outcome BrokerFault PaperOrder
update_order o done quantity price at = do
  average ← weighted_average o.filled_quantity o.average_fill_price quantity price
  raise_if (ltb o.intent.quantity done) (BrokerFault.of_order_check PaperFault.not_positive)
  within BrokerFault.of_order_check
      (check_paper_order matching_prec (filled_order o done average at))
  within BrokerFault.of_order_check (validate_order_transition o (filled_order o done average at))
  ok (filled_order o done average at)

abbrev pub event_type_after : OrderStatus → PaperEventType
event_type_after OrderStatus.filled = PaperEventType.order_filled
event_type_after _ = PaperEventType.order_partially_filled

abbrev pub position_key : PaperOrder → ℕ × ℕ × ℕ
position_key o = (o.intent.strategy_id, o.intent.account_id, o.intent.instrument_id)

-- The end of the loop's body: the three events, and what the loop keeps. The loop's `order_id` is
-- written as the order's own id: `submit` stores an order under its id, and a transition keeps it.
unfoldable pub stage_fill :
    Broker
    → MarketDataEnvelope
    → Batch
    → PaperFill
    → PaperOrder
    → PaperPosition
    → ℕ
    → Outcome BrokerFault Batch
stage_fill b m t f o p left = do
  fill_event ←
      make_event b t.next_sequence PaperEventType.fill_recorded (PaperEventPayload.of_fill f)
        (causal_time m) (some m.session_id) (some m.ingest_sequence)
  order_event ←
      make_event b (t.next_sequence + 1) (event_type_after o.status) (PaperEventPayload.of_order o)
        (causal_time m) (some m.session_id) (some m.ingest_sequence)
  position_event ←
      make_event b (t.next_sequence + 2) PaperEventType.position_changed
        (PaperEventPayload.of_position p) (causal_time m) (some m.session_id)
        (some m.ingest_sequence)
  ok (record {
    orders = put t.orders o.paper_order_id o;
    positions = put t.positions (position_key o) p;
    fills = t.fills ++ (f ∷ []);
    events = t.events ++ (fill_event ∷ order_event ∷ position_event ∷ []);
    next_sequence = t.next_sequence + 3;
    result_fills = t.result_fills ++ (f ∷ []);
    result_positions = t.result_positions ++ (p ∷ []);
    result_events = t.result_events ++ (fill_event ∷ order_event ∷ position_event ∷ []);
    reasons = t.reasons;
    capacities = with_capacity o.intent.side left t.capacities;
    fill_ordinal = t.fill_ordinal + 1;
  })

-- The position ledger refuses a fill that is too old as a reason to skip.
unfoldable pub book_fill :
    Broker
    → MarketDataEnvelope
    → Batch
    → PaperFill
    → PaperOrder
    → ℕ
    → Outcome PositionFault PaperPosition
    → Outcome BrokerFault Batch
book_fill b m t f o left (ok p) = stage_fill b m t f o p left
book_fill b m t f o left (raise PositionFault.temporal_order) =
    skip t MatchSkipReason.order_not_eligible
book_fill b m t f o left (raise e) = raise (BrokerFault.of_position e)
