-- ===== src/Live/Reduce/OrderEvent.antt =====
-- `reduce_broker_order_event`: an authoritative event other than a fill.
use tx_trader.Common.{
  ℕ, Bool, true, false, ◌&&◌, not, Option, none, some, Outcome, ok, ◌>>=◌, later, if◌then◌else◌,
}
use tx_trader.Decimals.{Grid, sub, default_prec}
use tx_trader.Live.Contracts.{LiveOrderState, BrokerOrderEventType, Fault}
use tx_trader.Live.Events.{NormalizedBrokerOrderEvent, Evidence, order_payload}
use tx_trader.Live.Order.{LiveOrder}
use tx_trader.Live.Local.{Changes, snapshot}
use tx_trader.Live.Ledger.{
  Source, AppliedEventLedger, ReductionDisposition, ReductionResult, deduplicate, record_event,
}
use tx_trader.Live.Reduce.Transition.{Transition, broker_transition}
use tx_trader.Live.Reduce.Shared.{unchanged, reconcile, conflict_code, is_confirmed_for, acceptance}

abbrev pub is_cancellation : BrokerOrderEventType → Bool
is_cancellation BrokerOrderEventType.cancelled = true
is_cancellation BrokerOrderEventType.dynamic_cancelled = true
is_cancellation _ = false

abbrev pub is_cancelled : LiveOrderState → Bool
is_cancelled LiveOrderState.cancelled = true
is_cancelled _ = false

-- States that say nothing of an acceptance by the broker.
abbrev pub claims_acceptance : LiveOrderState → Bool
claims_acceptance LiveOrderState.created = false
claims_acceptance LiveOrderState.validated = false
claims_acceptance LiveOrderState.submitting = false
claims_acceptance LiveOrderState.submission_unknown = false
claims_acceptance LiveOrderState.reconciling = false
claims_acceptance LiveOrderState.rejected = false
claims_acceptance _ = true

-- The keyword arguments of the snapshot for a transition.
unfoldable pub transition_changes : LiveOrder → NormalizedBrokerOrderEvent → Transition → Changes
transition_changes o e t = record {
  state = t.state;
  updated_at = later o.updated_at e.received_at;
  total_quantity = some t.total_quantity;
  filled_quantity = none;
  remaining_quantity = some (sub default_prec t.total_quantity o.filled_quantity);
  average_fill_price = none;
  working_limit_price = t.limit_price;
  accepted_at =
      if claims_acceptance t.state
      then some (acceptance o.accepted_at e.occurred_at e.received_at)
      else o.accepted_at;
  pending_command = t.pending;
}

unfoldable pub apply_transition :
    Grid
    → LiveOrder
    → NormalizedBrokerOrderEvent
    → AppliedEventLedger
    → ℕ
    → Option Transition
    → Outcome Fault ReductionResult
apply_transition g o e l fp none = ok (reconcile o l)
apply_transition g o e l fp (some t) = do
  next_order ← snapshot g o (transition_changes o e t)
  ok (record {
    order = next_order;
    ledger = record_event l Source.broker_event e.event_id fp;
    disposition = ReductionDisposition.applied;
    fill = none;
    failure_code = e.failure_code;
  })

-- The rest of the reducer, by what the ledger says of the event.
unfoldable pub order_event_known :
    Grid
    → LiveOrder
    → NormalizedBrokerOrderEvent
    → AppliedEventLedger
    → ℕ
    → Option ReductionDisposition
    → Outcome Fault ReductionResult
order_event_known g o e l fp (some d) = ok (unchanged o l d (conflict_code d))
order_event_known g o e l fp none =
    if not (is_confirmed_for o e.correlation e.account_id e.instrument_id)
    then ok (reconcile o l)
    else if is_cancelled o.state && is_cancellation e.event_type
    then ok (
        unchanged o (record_event l Source.broker_event e.event_id fp)
          ReductionDisposition.no_change none)
    else apply_transition g o e l fp (broker_transition o e)

unfoldable pub reduce_broker_order_event :
    Grid
    → (Evidence → ℕ)
    → LiveOrder
    → NormalizedBrokerOrderEvent
    → AppliedEventLedger
    → Outcome Fault ReductionResult
reduce_broker_order_event g digest o e l =
    let fp = digest (order_payload e) in
    order_event_known g o e l fp (deduplicate l Source.broker_event e.event_id fp)
