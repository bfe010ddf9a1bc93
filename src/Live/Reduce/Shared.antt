-- ===== src/Live/Reduce/Shared.antt =====
-- What the three reducers share.
use tx_trader.Common.{ℕ, Bool, ◌&&◌, Option, none, some, ◌==◌, same, or_else}
use tx_trader.Live.Contracts.{LiveFailureCode}
use tx_trader.Live.Events.{BrokerCorrelation, is_confirmed}
use tx_trader.Live.Order.{LiveOrder}
use tx_trader.Live.Ledger.{AppliedEventLedger, ReductionDisposition, ReductionResult}

-- A result that leaves the order and the ledger alone.
abbrev pub unchanged :
    LiveOrder → AppliedEventLedger → ReductionDisposition → Option LiveFailureCode → ReductionResult
unchanged o l d code = record {
  order = o;
  ledger = l;
  disposition = d;
  fill = none;
  failure_code = code;
}

-- `_reconcile`.
abbrev pub reconcile : LiveOrder → AppliedEventLedger → ReductionResult
reconcile o l =
    unchanged o l ReductionDisposition.reconciliation_required
      (some LiveFailureCode.reconciliation_required)

-- `_broker_duplicate_result`.
abbrev pub conflict_code : ReductionDisposition → Option LiveFailureCode
conflict_code ReductionDisposition.event_conflict = some LiveFailureCode.correlation_conflict
conflict_code _ = none

-- `_is_confirmed_for_order`.
unfoldable pub is_confirmed_for : LiveOrder → BrokerCorrelation → ℕ → ℕ → Bool
is_confirmed_for o c account instrument =
    is_confirmed c.status
    && same c.client_order_id (some o.intent.client_order_id)
    && account == o.intent.account_id
    && instrument == o.intent.instrument_id

-- `accepted_at or event.occurred_at or event.received_at`.
abbrev pub acceptance : Option ℕ → Option ℕ → ℕ → ℕ
acceptance accepted occurred received = or_else accepted (or_else occurred received)
