-- ===== src/Live/Reduce/FillEvent.antt =====
-- `reduce_broker_fill_event`: an authoritative fill.
use tx_trader.Common.{
  ℕ, ◌||◌, not, Option, none, some, Outcome, ok, raise, ◌>>=◌, ◌>>◌, ltb, ◌==◌, or_else, later,
  if◌then◌else◌,
}
use tx_trader.Decimals.{Grid, add, sub, mul, div, default_prec}
use tx_trader.Live.Contracts.{
  LiveOrderState, LiveCommandKind, Fault, PendingCommandBinding, command_kind, check_positive,
  side_eq,
}
use tx_trader.Live.Events.{NormalizedBrokerFillEvent, Evidence, fill_payload}
use tx_trader.Live.Order.{LiveOrder}
use tx_trader.Live.Local.{Changes, snapshot, kind_eq}
use tx_trader.Live.Ledger.{
  Source, AppliedEventLedger, ReductionDisposition, LiveFill, ReductionResult, deduplicate,
  record_event,
}
use tx_trader.Live.Reduce.Transition.{is_closed_for_fills}
use tx_trader.Live.Reduce.Shared.{unchanged, reconcile, conflict_code, is_confirmed_for, acceptance}

-- The state and the binding after a fill that leaves something to fill.
abbrev pub open_after_fill : LiveOrderState → LiveOrderState
open_after_fill LiveOrderState.cancelled = LiveOrderState.cancelled
open_after_fill LiveOrderState.reconciling = LiveOrderState.reconciling
open_after_fill LiveOrderState.cancel_pending = LiveOrderState.cancel_pending
open_after_fill _ = LiveOrderState.partially_filled

abbrev pub without_new : Option PendingCommandBinding → Option PendingCommandBinding
without_new none = none
without_new (some b) = if kind_eq (command_kind b.command) LiveCommandKind.new then none else some b

abbrev pub binding_after_fill :
    LiveOrderState → Option PendingCommandBinding → Option PendingCommandBinding
binding_after_fill LiveOrderState.cancelled p = none
binding_after_fill LiveOrderState.reconciling p = p
binding_after_fill LiveOrderState.cancel_pending p = p
binding_after_fill _ p = without_new p

-- The notional already filled, in the default context.
abbrev pub prior_notional : Grid → ℕ → Option ℕ → ℕ
prior_notional g filled none = 0
prior_notional g filled (some average) = mul g default_prec filled average

unfoldable pub average_after : Grid → LiveOrder → NormalizedBrokerFillEvent → ℕ
average_after g o e =
    div g default_prec
      (add default_prec (prior_notional g o.filled_quantity o.average_fill_price)
        (mul g default_prec e.quantity e.execution_price))
      (add default_prec o.filled_quantity e.quantity)

unfoldable pub fill_changes : Grid → LiveOrder → NormalizedBrokerFillEvent → Changes
fill_changes g o e =
    let new_filled = add default_prec o.filled_quantity e.quantity in
    let new_remaining = sub default_prec o.total_quantity new_filled in
    record {
      state = if new_remaining == 0 then LiveOrderState.filled else open_after_fill o.state;
      updated_at = later o.updated_at e.received_at;
      total_quantity = none;
      filled_quantity = some new_filled;
      remaining_quantity = some new_remaining;
      average_fill_price = some (average_after g o e);
      working_limit_price = none;
      accepted_at = some (acceptance o.accepted_at e.occurred_at e.received_at);
      pending_command =
          if new_remaining == 0 then none else binding_after_fill o.state o.pending_command;
    }

-- The `LiveFill` of a fill event.
abbrev pub fill_of : LiveOrder → NormalizedBrokerFillEvent → ℕ → LiveFill
fill_of o e fill_id = record {
  fill_id = fill_id;
  client_order_id = o.intent.client_order_id;
  strategy_id = o.intent.strategy_id;
  account_id = o.intent.account_id;
  instrument_id = o.intent.instrument_id;
  side = o.intent.side;
  quantity = e.quantity;
  execution_price = e.execution_price;
  occurred_at = or_else e.occurred_at e.received_at;
}

-- It is built with the checks of `LiveFill.__post_init__`, after the assertion that it has an id.
unfoldable pub fill_record :
    Grid → LiveOrder → NormalizedBrokerFillEvent → Option ℕ → Outcome Fault LiveFill
fill_record g o e none = raise Fault.no_fill_id
fill_record g o e (some fill_id) = do
  check_positive g e.quantity
  check_positive g e.execution_price
  ok (fill_of o e fill_id)

-- `a or b` of two optional identifiers.
abbrev pub first_id : Option ℕ → Option ℕ → Option ℕ
first_id none b = b
first_id (some a) b = some a

unfoldable pub apply_fill :
    Grid
    → LiveOrder
    → NormalizedBrokerFillEvent
    → AppliedEventLedger
    → ℕ
    → Outcome Fault ReductionResult
apply_fill g o e l fp = do
  next_order ← snapshot g o (fill_changes g o e)
  fill ← fill_record g o e (first_id e.correlation.broker_fill_id e.correlation.execution_no)
  ok (record {
    order = next_order;
    ledger = record_event l Source.broker_event e.event_id fp;
    disposition = ReductionDisposition.applied;
    fill = some fill;
    failure_code = none;
  })

unfoldable pub fill_event_known :
    Grid
    → LiveOrder
    → NormalizedBrokerFillEvent
    → AppliedEventLedger
    → ℕ
    → Option ReductionDisposition
    → Outcome Fault ReductionResult
fill_event_known g o e l fp (some d) = ok (unchanged o l d (conflict_code d))
fill_event_known g o e l fp none =
    if not (is_confirmed_for o e.correlation e.account_id e.instrument_id)
      || not (side_eq e.side o.intent.side)
    then ok (reconcile o l)
    else if is_closed_for_fills o.state || ltb o.remaining_quantity e.quantity
    then ok (reconcile o l)
    else apply_fill g o e l fp

unfoldable pub reduce_broker_fill_event :
    Grid
    → (Evidence → ℕ)
    → LiveOrder
    → NormalizedBrokerFillEvent
    → AppliedEventLedger
    → Outcome Fault ReductionResult
reduce_broker_fill_event g digest o e l =
    let fp = digest (fill_payload e) in
    fill_event_known g o e l fp (deduplicate l Source.broker_event e.event_id fp)
