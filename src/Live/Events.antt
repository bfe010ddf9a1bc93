-- ===== src/Live/Events.antt =====
-- tx_trade/orders/live_contracts.py: what the transport and the broker report, and how a bound
-- command and a broker event are fingerprinted and matched.
use tx_trader.Common.{
  ℕ, Bool, true, false, ◌&&◌, not, Option, none, some, Outcome, ◌>>◌, raise_if, ltb, leb, ◌==◌,
  same, is_some, is_none, differ,
}
use tx_trader.Decimals.{Grid, sub, default_prec}
use tx_trader.Live.Contracts.{
  LiveSide, LiveCommand, DispatchState, BrokerOrderEventType, CorrelationStatus, LiveFailureCode,
  Fault, PendingCommandBinding, check_positive, check_optional,
}

pub record DispatchReceipt : Type 0 where
  pub client_command_id : ℕ
  pub payload_fingerprint : ℕ
  pub state : DispatchState
  pub attempted_at : ℕ
  pub completed_at : Option ℕ
  pub failure_code : Option LiveFailureCode

abbrev pub is_succeeded : DispatchState → Bool
is_succeeded DispatchState.succeeded = true
is_succeeded _ = false

abbrev pub is_unknown : DispatchState → Bool
is_unknown DispatchState.unknown = true
is_unknown _ = false

-- `x is not None and x < t`.
abbrev pub is_before : Option ℕ → ℕ → Bool
is_before none t = false
is_before (some x) t = ltb x t

-- `x is not None and x > t`.
abbrev pub is_after : Option ℕ → ℕ → Bool
is_after none t = false
is_after (some x) t = ltb t x

-- `DispatchReceipt.__post_init__`.
unfoldable pub check_receipt : DispatchReceipt → Outcome Fault (Unit {0})
check_receipt r = do
  raise_if (is_before r.completed_at r.attempted_at) Fault.completed_before_attempt
  raise_if (is_succeeded r.state && is_some r.failure_code) Fault.failure_on_success
  raise_if (not (is_succeeded r.state) && is_none r.failure_code) Fault.failure_missing
  raise_if (not (is_unknown r.state) && is_none r.completed_at) Fault.completion_missing

pub record BrokerCorrelation : Type 0 where
  pub broker_session_generation : ℕ
  pub adapter_received_sequence : ℕ
  pub status : CorrelationStatus
  pub correlated_at : ℕ
  pub submission_attempt_id : Option ℕ
  pub async_thread_id : Option ℕ
  pub proxy_stamp_id : Option ℕ
  pub broker_order_sequence : Option ℕ
  pub broker_book_no : Option ℕ
  pub broker_fill_id : Option ℕ
  pub execution_no : Option ℕ
  pub client_order_id : Option ℕ

abbrev pub is_confirmed : CorrelationStatus → Bool
is_confirmed CorrelationStatus.confirmed = true
is_confirmed _ = false

-- `BrokerCorrelation.__post_init__`.
unfoldable pub check_correlation : BrokerCorrelation → Outcome Fault (Unit {0})
check_correlation c = do
  raise_if (c.broker_session_generation == 0) Fault.version_not_positive
  raise_if (c.adapter_received_sequence == 0) Fault.version_not_positive
  raise_if
      (is_none c.async_thread_id
        && is_none c.proxy_stamp_id
        && is_none c.broker_order_sequence
        && is_none c.broker_book_no
        && is_none c.broker_fill_id
        && is_none c.execution_no)
      Fault.no_clue
  raise_if (is_confirmed c.status && is_none c.client_order_id) Fault.client_order_missing

pub record NormalizedBrokerOrderEvent : Type 0 where
  pub event_id : ℕ
  pub account_id : ℕ
  pub instrument_id : ℕ
  pub event_type : BrokerOrderEventType
  pub received_at : ℕ
  pub broker_session_generation : ℕ
  pub adapter_received_sequence : ℕ
  pub correlation : BrokerCorrelation
  pub occurred_at : Option ℕ
  pub failure_code : Option LiveFailureCode
  pub decreased_quantity : Option ℕ
  pub new_limit_price : Option ℕ

abbrev pub is_quantity_change : BrokerOrderEventType → Bool
is_quantity_change BrokerOrderEventType.quantity_decreased = true
is_quantity_change BrokerOrderEventType.price_and_quantity_amended = true
is_quantity_change _ = false

abbrev pub is_price_change : BrokerOrderEventType → Bool
is_price_change BrokerOrderEventType.price_amended = true
is_price_change BrokerOrderEventType.price_and_quantity_amended = true
is_price_change _ = false

-- Whether the failure code is the one that belongs to the event type.
abbrev pub is_expected_failure : BrokerOrderEventType → Option LiveFailureCode → Bool
is_expected_failure BrokerOrderEventType.new_rejected (some LiveFailureCode.broker_rejected) = true
is_expected_failure BrokerOrderEventType.new_rejected _ = false
is_expected_failure BrokerOrderEventType.cancel_rejected (some LiveFailureCode.cancel_rejected) =
    true
is_expected_failure BrokerOrderEventType.cancel_rejected _ = false
is_expected_failure BrokerOrderEventType.amend_rejected (some LiveFailureCode.amend_rejected) = true
is_expected_failure BrokerOrderEventType.amend_rejected _ = false
is_expected_failure BrokerOrderEventType.outcome_unknown (some LiveFailureCode.broker_timeout) =
    true
is_expected_failure BrokerOrderEventType.outcome_unknown _ = false
is_expected_failure _ code = is_none code

-- The event's sequence numbers are positive and its correlation has the same ones.
unfoldable pub check_sequences : ℕ → ℕ → BrokerCorrelation → Outcome Fault (Unit {0})
check_sequences generation sequence c = do
  raise_if (generation == 0) Fault.version_not_positive
  raise_if (sequence == 0) Fault.version_not_positive
  raise_if (not (c.broker_session_generation == generation)) Fault.correlation_mismatch
  raise_if (not (c.adapter_received_sequence == sequence)) Fault.correlation_mismatch

-- A quantity, a price and a failure code are there exactly for the event types they belong to.
unfoldable pub check_shape :
    BrokerOrderEventType → Option ℕ → Option ℕ → Option LiveFailureCode → Outcome Fault (Unit {0})
check_shape ty decreased price code = do
  raise_if (differ (is_quantity_change ty) (is_some decreased)) Fault.quantity_change_mismatch
  raise_if (differ (is_price_change ty) (is_some price)) Fault.price_change_mismatch
  raise_if (not (is_expected_failure ty code)) Fault.failure_mismatch

-- `NormalizedBrokerOrderEvent.__post_init__`.
unfoldable pub check_order_event : Grid → NormalizedBrokerOrderEvent → Outcome Fault (Unit {0})
check_order_event g e = do
  check_sequences e.broker_session_generation e.adapter_received_sequence e.correlation
  raise_if (is_after e.occurred_at e.received_at) Fault.occurred_after_receipt
  check_optional g e.decreased_quantity
  check_optional g e.new_limit_price
  check_shape e.event_type e.decreased_quantity e.new_limit_price e.failure_code

pub record NormalizedBrokerFillEvent : Type 0 where
  pub event_id : ℕ
  pub account_id : ℕ
  pub instrument_id : ℕ
  pub side : LiveSide
  pub quantity : ℕ
  pub execution_price : ℕ
  pub received_at : ℕ
  pub broker_session_generation : ℕ
  pub adapter_received_sequence : ℕ
  pub correlation : BrokerCorrelation
  pub occurred_at : Option ℕ

-- `NormalizedBrokerFillEvent.__post_init__`.
unfoldable pub check_fill_event : Grid → NormalizedBrokerFillEvent → Outcome Fault (Unit {0})
check_fill_event g e = do
  check_positive g e.quantity
  check_positive g e.execution_price
  check_sequences e.broker_session_generation e.adapter_received_sequence e.correlation
  raise_if (is_none e.correlation.broker_fill_id && is_none e.correlation.execution_no)
      Fault.no_fill_id
  raise_if (is_after e.occurred_at e.received_at) Fault.occurred_after_receipt

-- The broker's decrease takes the order from the expected total to the commanded one.
unfoldable pub decreases_to : (expected target current : ℕ) → Option ℕ → Bool
decreases_to expected target current none = false
decreases_to expected target current (some dec) =
    current == expected && (leb dec current && sub default_prec current dec == target)

-- `PendingCommandBinding.matches_authoritative_working_change`. The current total is a LiveOrder's,
-- so it has passed the check that is repeated there.
unfoldable pub matches_working_change :
    LiveCommand → BrokerOrderEventType → (new_limit_price decreased : Option ℕ) (current : ℕ) → Bool
unfolding decreases_to
matches_working_change (LiveCommand.amend_order c o p t) BrokerOrderEventType.price_amended price
      dec current =
    same price (some p)
matches_working_change (LiveCommand.decrease_order c o x n t)
      BrokerOrderEventType.quantity_decreased price dec current =
    decreases_to x n current dec
matches_working_change _ _ price dec current = false

-- What `broker_semantic_fingerprint` digests: the payload of its canonical JSON, with the domain
-- as the constructor. The receipt is digested whole.
pub data Evidence : Type 0 where
  order_evidence :
      (account_id event_id : ℕ) (event_type : BrokerOrderEventType)
      (failure_code : Option LiveFailureCode) (instrument_id : ℕ)
      (new_limit_price decreased_quantity : Option ℕ)
      → Evidence
  fill_evidence :
      (account_id event_id execution_price instrument_id quantity : ℕ) (side : LiveSide) → Evidence
  dispatch_evidence : DispatchReceipt → Evidence

abbrev pub order_payload : NormalizedBrokerOrderEvent → Evidence
order_payload e =
    Evidence.order_evidence e.account_id e.event_id e.event_type e.failure_code e.instrument_id
      e.new_limit_price e.decreased_quantity

abbrev pub fill_payload : NormalizedBrokerFillEvent → Evidence
fill_payload e =
    Evidence.fill_evidence e.account_id e.event_id e.execution_price e.instrument_id e.quantity
      e.side

-- `PendingCommandBinding.__post_init__`; `digest` stands for `payload_fingerprint`, whose domain
-- is fixed by the command's type.
unfoldable pub check_binding : (LiveCommand → ℕ) → PendingCommandBinding → Outcome Fault (Unit {0})
check_binding digest b =
    raise_if (not (b.payload_fingerprint == digest b.command)) Fault.fingerprint_mismatch
