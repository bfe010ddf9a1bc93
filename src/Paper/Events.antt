-- ===== src/Paper/Events.antt =====
-- tx_trade/orders/contracts.py: rejections, the journal's events, and the broker's limits.
--
-- `ExecutionProvenance` has one member and is left out, as are the checks of types.
use tx_trader.Common.{
  ℕ, Bool, true, false, ◌&&◌, not, Option, some, Outcome, ◌>>◌, raise_if, ltb, ◌==◌, same, is_none,
  differ,
}
use tx_trader.Paper.Contracts.{OrderStatus, PaperOrder}
use tx_trader.Paper.Position.{PaperFill, PaperPosition}

pub data RejectionCode : Type 0 where
  invalid_intent unknown_order order_terminal idempotency_conflict : RejectionCode
  instrument_unavailable market_data_unavailable capacity_exceeded : RejectionCode
  internal_rejected : RejectionCode

pub record CancelIntent : Type 0 where
  pub strategy_id : ℕ
  pub client_order_id : ℕ
  pub paper_order_id : ℕ
  pub requested_at : ℕ
  pub source_session_id : Option ℕ
  pub source_ingest_sequence : Option ℕ

pub data EventFault : Type 0 where
  source_incomplete run_mismatch payload_mismatch causation_missing : EventFault
  time_mismatch causation_mismatch open_above_orders limit_not_positive : EventFault

-- `CancelIntent.__post_init__`.
unfoldable pub check_cancel_intent : CancelIntent → Outcome EventFault (Unit {0})
check_cancel_intent c =
    raise_if (differ (is_none c.source_session_id) (is_none c.source_ingest_sequence))
      EventFault.source_incomplete

pub record PaperRejection : Type 0 where
  pub paper_run_id : ℕ
  pub strategy_id : ℕ
  pub client_order_id : ℕ
  pub code : RejectionCode
  pub rejected_at : ℕ
  pub paper_order_id : Option ℕ

pub data PaperEventType : Type 0 where
  order_accepted order_partially_filled order_filled order_cancelled : PaperEventType
  order_rejected fill_recorded position_changed : PaperEventType

pub data PaperEventPayload : Type 0 where
  of_order : PaperOrder → PaperEventPayload
  of_fill : PaperFill → PaperEventPayload
  of_rejection : PaperRejection → PaperEventPayload
  of_position : PaperPosition → PaperEventPayload

pub record PaperEvent : Type 0 where
  pub paper_run_id : ℕ
  pub paper_event_id : ℕ
  pub paper_sequence : ℕ
  pub event_type : PaperEventType
  pub payload : PaperEventPayload
  pub occurred_at : ℕ
  pub source_session_id : Option ℕ
  pub source_ingest_sequence : Option ℕ

abbrev pub payload_run : PaperEventPayload → ℕ
payload_run (PaperEventPayload.of_order o) = o.paper_run_id
payload_run (PaperEventPayload.of_fill f) = f.paper_run_id
payload_run (PaperEventPayload.of_rejection r) = r.paper_run_id
payload_run (PaperEventPayload.of_position p) = p.paper_run_id

abbrev pub payload_time : PaperEventPayload → ℕ
payload_time (PaperEventPayload.of_order o) = o.updated_at
payload_time (PaperEventPayload.of_fill f) = f.occurred_at
payload_time (PaperEventPayload.of_rejection r) = r.rejected_at
payload_time (PaperEventPayload.of_position p) = p.updated_at

-- `_ORDER_EVENT_STATUSES` and the branches below it: what an event of this type may carry.
abbrev pub carries_status : PaperEventType → OrderStatus → Bool
carries_status PaperEventType.order_accepted OrderStatus.accepted = true
carries_status PaperEventType.order_partially_filled OrderStatus.partially_filled = true
carries_status PaperEventType.order_filled OrderStatus.filled = true
carries_status PaperEventType.order_cancelled OrderStatus.cancelled = true
carries_status _ _ = false

abbrev pub is_rejection_type : PaperEventType → Bool
is_rejection_type PaperEventType.order_rejected = true
is_rejection_type _ = false

abbrev pub is_fill_type : PaperEventType → Bool
is_fill_type PaperEventType.fill_recorded = true
is_fill_type _ = false

abbrev pub is_position_type : PaperEventType → Bool
is_position_type PaperEventType.position_changed = true
is_position_type _ = false

unfoldable pub carries : PaperEventType → PaperEventPayload → Bool
carries ty (PaperEventPayload.of_order o) = carries_status ty o.status
carries ty (PaperEventPayload.of_fill f) = is_fill_type ty
carries ty (PaperEventPayload.of_rejection r) = is_rejection_type ty
carries ty (PaperEventPayload.of_position p) = is_position_type ty

-- `_MARKET_CAUSED_EVENT_TYPES`.
abbrev pub is_market_caused : PaperEventType → Bool
is_market_caused PaperEventType.order_partially_filled = true
is_market_caused PaperEventType.order_filled = true
is_market_caused PaperEventType.fill_recorded = true
is_market_caused PaperEventType.position_changed = true
is_market_caused _ = false

-- A fill's source is its event's.
unfoldable pub same_cause : PaperEventPayload → Option ℕ → Option ℕ → Bool
same_cause (PaperEventPayload.of_fill f) session sequence =
    same session (some f.source_session_id) && same sequence (some f.source_ingest_sequence)
same_cause _ session sequence = true

-- `PaperEvent.__post_init__`.
unfoldable pub check_event : PaperEvent → Outcome EventFault (Unit {0})
check_event e = do
  raise_if (e.paper_sequence == 0) EventFault.limit_not_positive
  raise_if (differ (is_none e.source_session_id) (is_none e.source_ingest_sequence))
      EventFault.source_incomplete
  raise_if (not (payload_run e.payload == e.paper_run_id)) EventFault.run_mismatch
  raise_if (not (carries e.event_type e.payload)) EventFault.payload_mismatch
  raise_if (is_market_caused e.event_type && is_none e.source_session_id)
      EventFault.causation_missing
  raise_if (not (e.occurred_at == payload_time e.payload)) EventFault.time_mismatch
  raise_if (not (same_cause e.payload e.source_session_id e.source_ingest_sequence))
      EventFault.causation_mismatch

pub record PaperBrokerLimits : Type 0 where
  pub max_orders : ℕ
  pub max_open_orders : ℕ
  pub max_fills : ℕ
  pub max_events : ℕ
  pub max_market_data_records : ℕ
  pub max_instrument_versions : ℕ
  pub max_positions : ℕ

-- `PaperBrokerLimits.__post_init__`.
unfoldable pub check_limits : PaperBrokerLimits → Outcome EventFault (Unit {0})
check_limits l = do
  raise_if (l.max_orders == 0) EventFault.limit_not_positive
  raise_if (l.max_open_orders == 0) EventFault.limit_not_positive
  raise_if (l.max_fills == 0) EventFault.limit_not_positive
  raise_if (l.max_events == 0) EventFault.limit_not_positive
  raise_if (l.max_market_data_records == 0) EventFault.limit_not_positive
  raise_if (l.max_instrument_versions == 0) EventFault.limit_not_positive
  raise_if (l.max_positions == 0) EventFault.limit_not_positive
  raise_if (ltb l.max_orders l.max_open_orders) EventFault.open_above_orders
