-- ===== src/Paper/Equality.antt =====
-- The equality that Python's dataclasses and enumerations of tx_trade/orders/contracts.py have, on
-- events of the journal: field by field.
use tx_trader.Common.{ℕ, Bool, true, false, ◌&&◌, List, [], ◌∷◌, ◌==◌, same, ℤ, pos_part, neg_part}
use tx_trader.Paper.Contracts.{OrderStatus, PaperOrder, order_side_eq, order_intent_eq}
use tx_trader.Paper.Position.{PaperFill, PaperPosition}
use tx_trader.Paper.Events.{
  RejectionCode, PaperRejection, PaperEventType, PaperEventPayload, PaperEvent,
}

-- The place of a member in its enumeration.
abbrev status_place : OrderStatus → ℕ
status_place OrderStatus.accepted = 0
status_place OrderStatus.partially_filled = 1
status_place OrderStatus.filled = 2
status_place OrderStatus.cancelled = 3
status_place OrderStatus.rejected = 4

abbrev type_place : PaperEventType → ℕ
type_place PaperEventType.order_accepted = 0
type_place PaperEventType.order_partially_filled = 1
type_place PaperEventType.order_filled = 2
type_place PaperEventType.order_cancelled = 3
type_place PaperEventType.order_rejected = 4
type_place PaperEventType.fill_recorded = 5
type_place PaperEventType.position_changed = 6

abbrev code_place : RejectionCode → ℕ
code_place RejectionCode.invalid_intent = 0
code_place RejectionCode.unknown_order = 1
code_place RejectionCode.order_terminal = 2
code_place RejectionCode.idempotency_conflict = 3
code_place RejectionCode.instrument_unavailable = 4
code_place RejectionCode.market_data_unavailable = 5
code_place RejectionCode.capacity_exceeded = 6
code_place RejectionCode.internal_rejected = 7

abbrev integer_eq : ℤ → ℤ → Bool
integer_eq a b = pos_part a == pos_part b && neg_part a == neg_part b

abbrev paper_order_eq : PaperOrder → PaperOrder → Bool
paper_order_eq a b =
    a.paper_run_id == b.paper_run_id
    && a.paper_order_id == b.paper_order_id
    && order_intent_eq a.intent b.intent
    && status_place a.status == status_place b.status
    && a.filled_quantity == b.filled_quantity
    && a.remaining_quantity == b.remaining_quantity
    && same a.average_fill_price b.average_fill_price
    && same a.accepted_at b.accepted_at
    && a.updated_at == b.updated_at

abbrev paper_fill_eq : PaperFill → PaperFill → Bool
paper_fill_eq a b =
    a.paper_run_id == b.paper_run_id
    && a.paper_fill_id == b.paper_fill_id
    && a.paper_order_id == b.paper_order_id
    && a.strategy_id == b.strategy_id
    && a.account_id == b.account_id
    && a.instrument_id == b.instrument_id
    && order_side_eq a.side b.side
    && a.quantity == b.quantity
    && a.execution_price == b.execution_price
    && a.fee == b.fee
    && a.source_session_id == b.source_session_id
    && a.source_ingest_sequence == b.source_ingest_sequence
    && a.occurred_at == b.occurred_at
    && same a.reference_price b.reference_price
    && a.slippage_amount == b.slippage_amount
    && same a.fee_currency b.fee_currency

abbrev paper_rejection_eq : PaperRejection → PaperRejection → Bool
paper_rejection_eq a b =
    a.paper_run_id == b.paper_run_id
    && a.strategy_id == b.strategy_id
    && a.client_order_id == b.client_order_id
    && code_place a.code == code_place b.code
    && a.rejected_at == b.rejected_at
    && same a.paper_order_id b.paper_order_id

abbrev paper_position_eq : PaperPosition → PaperPosition → Bool
paper_position_eq a b =
    a.paper_run_id == b.paper_run_id
    && a.paper_position_id == b.paper_position_id
    && a.strategy_id == b.strategy_id
    && a.account_id == b.account_id
    && a.instrument_id == b.instrument_id
    && integer_eq a.net_quantity b.net_quantity
    && same a.average_open_price b.average_open_price
    && a.cumulative_fees == b.cumulative_fees
    && same a.fee_currency b.fee_currency
    && a.version == b.version
    && a.updated_at == b.updated_at

abbrev payload_eq : PaperEventPayload → PaperEventPayload → Bool
payload_eq (PaperEventPayload.of_order a) (PaperEventPayload.of_order b) = paper_order_eq a b
payload_eq (PaperEventPayload.of_fill a) (PaperEventPayload.of_fill b) = paper_fill_eq a b
payload_eq (PaperEventPayload.of_rejection a) (PaperEventPayload.of_rejection b) =
    paper_rejection_eq a b
payload_eq (PaperEventPayload.of_position a) (PaperEventPayload.of_position b) =
    paper_position_eq a b
payload_eq _ _ = false

unfoldable pub paper_event_eq : PaperEvent → PaperEvent → Bool
paper_event_eq a b =
    a.paper_run_id == b.paper_run_id
    && a.paper_event_id == b.paper_event_id
    && a.paper_sequence == b.paper_sequence
    && type_place a.event_type == type_place b.event_type
    && payload_eq a.payload b.payload
    && a.occurred_at == b.occurred_at
    && same a.source_session_id b.source_session_id
    && same a.source_ingest_sequence b.source_ingest_sequence

-- `events[: len(first)] == first`
unfoldable pub starts_with : List PaperEvent → List PaperEvent → Bool
starts_with events [] = true
starts_with [] (e ∷ first) = false
starts_with (a ∷ events) (e ∷ first) =
    let rest = starts_with events first in paper_event_eq a e && rest
