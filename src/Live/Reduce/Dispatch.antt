-- ===== src/Live/Reduce/Dispatch.antt =====
-- `reduce_dispatch`: transport evidence for the bound command.
use tx_trader.Common.{
  ℕ, Bool, ◌&&◌, Option, none, some, Outcome, ok, ◌>>=◌, ◌==◌, or_else, later, if◌then◌else◌,
}
use tx_trader.Decimals.{Grid}
use tx_trader.Live.Contracts.{
  LiveOrderState, LiveCommandKind, LiveFailureCode, Fault, PendingCommandBinding, client_command_id,
  command_kind,
}
use tx_trader.Live.Events.{DispatchReceipt, Evidence, is_succeeded, is_unknown}
use tx_trader.Live.Order.{LiveOrder}
use tx_trader.Live.Local.{only, snapshot, kind_eq}
use tx_trader.Live.Ledger.{
  Source, AppliedEventLedger, ReductionDisposition, ReductionResult, deduplicate, record_event,
}
use tx_trader.Live.Reduce.Shared.{unchanged}

-- The receipt answers the bound command.
abbrev pub answers : DispatchReceipt → PendingCommandBinding → Bool
answers r b =
    r.client_command_id == client_command_id b.command
    && r.payload_fingerprint == b.payload_fingerprint

-- The branches after the receipt is found to be new.
unfoldable pub dispatch_outcome :
    Grid
    → LiveOrder
    → DispatchReceipt
    → PendingCommandBinding
    → AppliedEventLedger
    → Outcome Fault ReductionResult
dispatch_outcome g o r b next =
    if is_succeeded r.state then ok (unchanged o next ReductionDisposition.no_change none) else do
      next_order ← snapshot g o (
          only
            (if kind_eq (command_kind b.command) LiveCommandKind.new && is_unknown r.state
              then LiveOrderState.submission_unknown
              else LiveOrderState.reconciling)
            (later o.updated_at (or_else r.completed_at r.attempted_at)) (some b))
      ok (record {
        order = next_order;
        ledger = next;
        disposition =
            if is_unknown r.state
            then ReductionDisposition.applied
            else ReductionDisposition.reconciliation_required;
        fill = none;
        failure_code = r.failure_code;
      })

-- A receipt that answers the bound command: seen before, or new.
unfoldable pub dispatch_known :
    Grid
    → LiveOrder
    → DispatchReceipt
    → PendingCommandBinding
    → AppliedEventLedger
    → ℕ
    → Option ReductionDisposition
    → Outcome Fault ReductionResult
dispatch_known g o r b l fp (some d) = ok (unchanged o l d none)
dispatch_known g o r b l fp none =
    dispatch_outcome g o r b (record_event l Source.dispatch r.client_command_id fp)

unfoldable pub dispatch_bound :
    Grid
    → (Evidence → ℕ)
    → LiveOrder
    → DispatchReceipt
    → AppliedEventLedger
    → Option PendingCommandBinding
    → Outcome Fault ReductionResult
dispatch_bound g digest o r l none =
    ok (
      unchanged o l ReductionDisposition.event_conflict (some LiveFailureCode.idempotency_conflict))
dispatch_bound g digest o r l (some b) =
    let fp = digest (Evidence.dispatch_evidence r) in
    if answers r b
    then dispatch_known g o r b l fp (deduplicate l Source.dispatch r.client_command_id fp)
    else ok (
        unchanged o l ReductionDisposition.event_conflict
          (some LiveFailureCode.idempotency_conflict))

unfoldable pub reduce_dispatch :
    Grid
    → (Evidence → ℕ)
    → LiveOrder
    → DispatchReceipt
    → AppliedEventLedger
    → Outcome Fault ReductionResult
reduce_dispatch g digest o r l = dispatch_bound g digest o r l o.pending_command
