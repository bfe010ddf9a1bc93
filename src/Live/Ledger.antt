-- ===== src/Live/Ledger.antt =====
-- tx_trade/orders/live_state_machine.py: the ledger of applied evidence and the reduction result.
use tx_trader.Common.{
  ℕ, Bool, true, false, ◌&&◌, Option, none, some, List, [], ◌∷◌, ◌++◌, ◌==◌, if◌then◌else◌,
}
use tx_trader.Live.Contracts.{LiveSide, LiveFailureCode}
use tx_trader.Live.Order.{LiveOrder}

-- The two source names that the reducers use.
pub data Source : Type 0 where
  dispatch broker_event : Source

unfoldable pub source_eq : Source → Source → Bool
source_eq Source.dispatch Source.dispatch = true
source_eq Source.broker_event Source.broker_event = true
source_eq _ _ = false

pub record AppliedEvent : Type 0 where
  pub source : Source
  pub event_id : ℕ
  pub fingerprint : ℕ

abbrev pub AppliedEventLedger : Type 0
AppliedEventLedger = List AppliedEvent

-- `AppliedEventLedger.find`: the first event with this source and id.
unfoldable pub find : Source → ℕ → AppliedEventLedger → Option AppliedEvent
unfolding source_eq
find source event_id [] = none
find source event_id (e ∷ events) =
    if source_eq e.source source && e.event_id == event_id
    then some e
    else find source event_id events

-- `AppliedEventLedger.append`.
unfoldable pub append : AppliedEventLedger → AppliedEvent → AppliedEventLedger
append events e = events ++ (e ∷ [])

pub data ReductionDisposition : Type 0 where
  applied no_change exact_duplicate event_conflict : ReductionDisposition
  reconciliation_required stale terminal_immutable : ReductionDisposition

pub record LiveFill : Type 0 where
  pub fill_id : ℕ
  pub client_order_id : ℕ
  pub strategy_id : ℕ
  pub account_id : ℕ
  pub instrument_id : ℕ
  pub side : LiveSide
  pub quantity : ℕ
  pub execution_price : ℕ
  pub occurred_at : ℕ

pub record ReductionResult : Type 0 where
  pub order : LiveOrder
  pub ledger : AppliedEventLedger
  pub disposition : ReductionDisposition
  pub fill : Option LiveFill
  pub failure_code : Option LiveFailureCode

-- The property `reconciliation_required` of a result.
unfoldable pub needs_reconciliation : ReductionDisposition → Bool
needs_reconciliation ReductionDisposition.event_conflict = true
needs_reconciliation ReductionDisposition.reconciliation_required = true
needs_reconciliation _ = false

-- `_deduplicate`, given the fingerprint of the evidence at hand.
abbrev pub judge : ℕ → Option AppliedEvent → Option ReductionDisposition
judge fingerprint none = none
judge fingerprint (some e) = some (
    if e.fingerprint == fingerprint
    then ReductionDisposition.exact_duplicate
    else ReductionDisposition.event_conflict)

unfoldable pub deduplicate : AppliedEventLedger → Source → ℕ → ℕ → Option ReductionDisposition
deduplicate ledger source event_id fingerprint = judge fingerprint (find source event_id ledger)

-- `_record`.
unfoldable pub record_event : AppliedEventLedger → Source → ℕ → ℕ → AppliedEventLedger
unfolding append
record_event ledger source event_id fingerprint =
    append ledger (record { source = source; event_id = event_id; fingerprint = fingerprint })
