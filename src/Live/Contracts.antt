-- ===== src/Live/Contracts.antt =====
-- tx_trade/orders/live_contracts.py: the enumerations, the commands and the broker's events.
--
-- An identifier or a fingerprint is only ever compared, so it is a number; a datetime is the
-- number of microseconds since an epoch in UTC. The `type(x) is not T` checks have no counterpart
-- in a typed model.
use tx_trader.Common.{
  ℕ, Bool, true, false, ◌&&◌, not, Option, none, some, Outcome, ok, ◌>>◌, raise_if, ltb, ◌==◌, same,
  is_some, is_none, differ,
}
use tx_trader.Decimals.{Grid, in_bounds}

pub data LiveSide : Type 0 where
  buy sell : LiveSide

pub data LiveOrderType : Type 0 where
  market limit : LiveOrderType

pub data LiveTimeInForce : Type 0 where
  day ioc fok : LiveTimeInForce

pub data LiveOrderState : Type 0 where
  created validated submitting accepted partially_filled filled rejected : LiveOrderState
  cancel_pending cancelled submission_unknown reconciling : LiveOrderState

abbrev pub is_terminal : LiveOrderState → Bool
is_terminal LiveOrderState.filled = true
is_terminal LiveOrderState.rejected = true
is_terminal LiveOrderState.cancelled = true
is_terminal _ = false

pub data LiveCommandKind : Type 0 where
  new cancel amend decrease : LiveCommandKind

pub data DispatchState : Type 0 where
  succeeded failed unknown : DispatchState

pub data BrokerOrderEventType : Type 0 where
  new_accepted new_rejected cancel_pending cancelled cancel_rejected : BrokerOrderEventType
  dynamic_cancelled price_amended quantity_decreased : BrokerOrderEventType
  price_and_quantity_amended amend_rejected outcome_unknown : BrokerOrderEventType

pub data CorrelationStatus : Type 0 where
  candidate confirmed ambiguous : CorrelationStatus

pub data LiveFailureCode : Type 0 where
  invalid_command idempotency_conflict account_not_ready risk_rejected : LiveFailureCode
  dispatch_failed dispatch_outcome_unknown broker_rejected cancel_rejected : LiveFailureCode
  amend_rejected broker_timeout correlation_conflict broker_event_invalid : LiveFailureCode
  reconciliation_required internal_failure : LiveFailureCode

-- One constructor for each message of a ValueError or an InvalidLiveOrderTransition.
pub data Fault : Type 0 where
  out_of_bounds not_positive market_with_limit limit_missing : Fault
  parts_differ total_above_intent average_mismatch version_not_positive : Fault
  acceptance_missing accepted_after_update bound_after_update : Fault
  intent_mismatch order_mismatch binding_required binding_retained : Fault
  not_cancel_binding not_partial remaining_not_zero filled_not_zero no_remaining : Fault
  not_decreasing fingerprint_mismatch time_backwards validation_binds : Fault
  binding_missing wrong_kind bound_in_future not_allowed already_pending : Fault
  not_an_operation expected_total_mismatch : Fault
  completed_before_attempt failure_on_success failure_missing completion_missing : Fault
  no_clue client_order_missing correlation_mismatch occurred_after_receipt : Fault
  quantity_change_mismatch price_change_mismatch failure_mismatch no_fill_id : Fault

unfoldable pub side_eq : LiveSide → LiveSide → Bool
side_eq LiveSide.buy LiveSide.buy = true
side_eq LiveSide.sell LiveSide.sell = true
side_eq _ _ = false

unfoldable pub type_eq : LiveOrderType → LiveOrderType → Bool
type_eq LiveOrderType.market LiveOrderType.market = true
type_eq LiveOrderType.limit LiveOrderType.limit = true
type_eq _ _ = false

unfoldable pub tif_eq : LiveTimeInForce → LiveTimeInForce → Bool
tif_eq LiveTimeInForce.day LiveTimeInForce.day = true
tif_eq LiveTimeInForce.ioc LiveTimeInForce.ioc = true
tif_eq LiveTimeInForce.fok LiveTimeInForce.fok = true
tif_eq _ _ = false

pub record LiveOrderIntent : Type 0 where
  pub strategy_id : ℕ
  pub client_order_id : ℕ
  pub account_id : ℕ
  pub instrument_id : ℕ
  pub side : LiveSide
  pub quantity : ℕ
  pub order_type : LiveOrderType
  pub limit_price : Option ℕ
  pub time_in_force : LiveTimeInForce
  pub day_trade : Bool
  pub created_at : ℕ

-- `==` of the frozen dataclass: field by field.
unfoldable pub intent_eq : LiveOrderIntent → LiveOrderIntent → Bool
unfolding side_eq type_eq tif_eq
intent_eq a b =
    a.strategy_id == b.strategy_id
    && a.client_order_id == b.client_order_id
    && a.account_id == b.account_id
    && a.instrument_id == b.instrument_id
    && side_eq a.side b.side
    && a.quantity == b.quantity
    && type_eq a.order_type b.order_type
    && same a.limit_price b.limit_price
    && tif_eq a.time_in_force b.time_in_force
    && not (differ a.day_trade b.day_trade)
    && a.created_at == b.created_at

-- `_decimal(..., nonnegative=True)`, `positive=True`, and `positive=True, optional=True`.
unfoldable pub check_amount : Grid → ℕ → Outcome Fault (Unit {0})
check_amount g v = raise_if (not (in_bounds g v)) Fault.out_of_bounds

unfoldable pub check_positive : Grid → ℕ → Outcome Fault (Unit {0})
check_positive g v = do check_amount g v; raise_if (v == 0) Fault.not_positive

unfoldable pub check_optional : Grid → Option ℕ → Outcome Fault (Unit {0})
check_optional g none = ok tt
check_optional g (some v) = check_positive g v

-- A market order has no limit price and a limit order has one.
unfoldable pub check_price : LiveOrderType → Option ℕ → Outcome Fault (Unit {0})
check_price LiveOrderType.market p = raise_if (is_some p) Fault.market_with_limit
check_price LiveOrderType.limit p = raise_if (is_none p) Fault.limit_missing

-- `LiveOrderIntent.__post_init__`.
unfoldable pub check_intent : Grid → LiveOrderIntent → Outcome Fault (Unit {0})
check_intent g i = do
  check_positive g i.quantity
  check_optional g i.limit_price
  check_price i.order_type i.limit_price

-- The four command dataclasses; the fields stand in the source's order.
pub data LiveCommand : Type 0 where
  new_order : (client_command_id : ℕ) (intent : LiveOrderIntent) (requested_at : ℕ) → LiveCommand
  cancel_order : (client_command_id client_order_id requested_at : ℕ) → LiveCommand
  amend_order : (client_command_id client_order_id new_limit_price requested_at : ℕ) → LiveCommand
  decrease_order :
      (client_command_id client_order_id expected_total new_total requested_at : ℕ) → LiveCommand

abbrev pub client_command_id : LiveCommand → ℕ
client_command_id (LiveCommand.new_order c i t) = c
client_command_id (LiveCommand.cancel_order c o t) = c
client_command_id (LiveCommand.amend_order c o p t) = c
client_command_id (LiveCommand.decrease_order c o e n t) = c

abbrev pub command_kind : LiveCommand → LiveCommandKind
command_kind (LiveCommand.new_order c i t) = LiveCommandKind.new
command_kind (LiveCommand.cancel_order c o t) = LiveCommandKind.cancel
command_kind (LiveCommand.amend_order c o p t) = LiveCommandKind.amend
command_kind (LiveCommand.decrease_order c o e n t) = LiveCommandKind.decrease

abbrev pub bound_at : LiveCommand → ℕ
bound_at (LiveCommand.new_order c i t) = t
bound_at (LiveCommand.cancel_order c o t) = t
bound_at (LiveCommand.amend_order c o p t) = t
bound_at (LiveCommand.decrease_order c o e n t) = t

-- `__post_init__` of the command dataclasses.
unfoldable pub check_command : Grid → LiveCommand → Outcome Fault (Unit {0})
check_command g (LiveCommand.new_order c i t) = ok tt
check_command g (LiveCommand.cancel_order c o t) = ok tt
check_command g (LiveCommand.amend_order c o p t) = check_positive g p
check_command g (LiveCommand.decrease_order c o e n t) = do
  check_positive g e
  check_positive g n
  raise_if (not (ltb n e)) Fault.not_decreasing

pub record PendingCommandBinding : Type 0 where
  pub command : LiveCommand
  pub payload_fingerprint : ℕ
