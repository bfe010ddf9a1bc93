-- ===== src/Paper/Broker/Processing.antt =====
-- Every call of the broker makes only changes that the contract allows.
use tx_trader.Common.{
  ◌≡◌, Bool, true, false, ◌||◌, not, some, List, [], ◌∷◌, ok, raise_if, Ensures, Ensures->>=,
  Ensures-bind, Ensures-eq_ok, leb, ◌==◌, same, length, get, eq_nat, eq_pair,
}
use tx_trader.Paper.Contracts.{OrderIntent}
use tx_trader.Paper.Events.{CancelIntent}
use tx_trader.Paper.Matching.{Quote, Inspection, inspect_quote_top}
use tx_trader.Paper.Broker.State.{
  OrderCommandResult, Command, PaperDecision, EnvelopePayload, MarketDataEnvelope, BrokerFault,
  Broker, BrokerState,
}
use tx_trader.Paper.Broker.Commands.{submit}
use tx_trader.Paper.Broker.Cancel.{cancel}
use tx_trader.Paper.Broker.Batch.{Batch}
use tx_trader.Paper.Broker.Results.{
  PaperDecisionBatchResult, check_match_result, check_batch_result,
}
use tx_trader.Paper.Broker.Envelopes.{
  Instruments, validate_envelope_fence, check_metadata, match_inspected, metadata_of,
  process_payload,
}
use tx_trader.Paper.Broker.Process.{
  matched_state, stage_commands, exceeds, returned, process_commands, process_new,
  process_duplicate, process_fenced, process_decision_batch,
}
use tx_trader.Paper.Broker.Changes.{core, Changes, Changes_trans}
use tx_trader.Paper.Broker.Allowed.{Allowed, ResultAllowed}
use tx_trader.Paper.Broker.Submitting.{submit-Allowed}
use tx_trader.Paper.Broker.Cancelling.{cancel-Allowed}
use tx_trader.Paper.Broker.Batching.{stage_batch_command-Allowed}
use tx_trader.Paper.Broker.Filling.{batch_core, stage_matches-BatchAllowed}

-- The batch, and what it may be after a payload.
abbrev FromState : Broker → BrokerState → Batch → Type 0
FromState b s t = Changes b (core s) (batch_core s t)

abbrev BatchFrom : Broker → BrokerState → Batch × Instruments → Type 0
BatchFrom b s r = FromState b s r.0

match_inspected-FromState :
    (b : Broker) (s : BrokerState) (m : MarketDataEnvelope) (q : Quote) (i : Inspection)
    → Ensures (match_inspected b s m q i) (FromState b s)
unfolding match_inspected
match_inspected-FromState b s m q (Inspection.skipped reasons) = Changes.stay
match_inspected-FromState b s m q (Inspection.usable top) =
    stage_matches-BatchAllowed b s m q.instrument_id top s.eligibility_sequence _ _

process_payload-BatchFrom :
    (b : Broker) (s : BrokerState) (m : MarketDataEnvelope) (p : EnvelopePayload)
    → Ensures (process_payload b s m p) (BatchFrom b s)
unfolding process_payload
process_payload-BatchFrom b s m (EnvelopePayload.instrument i) =
    Ensures->>= (BatchFrom b s)
      (check_metadata b s i (get s.instruments (i.instrument_id, i.metadata_version))) _
      (λ _ _. Changes.stay)
process_payload-BatchFrom b s m (EnvelopePayload.quote q) =
    Ensures-bind (FromState b s) (BatchFrom b s) _ _
      (match_inspected-FromState b s m q (inspect_quote_top q (metadata_of s q m.metadata_version)))
      (λ t h. h)
process_payload-BatchFrom b s m EnvelopePayload.other = Changes.stay

abbrev ResultsAllowed : Broker → BrokerState → List OrderCommandResult × BrokerState → Type 0
ResultsAllowed b s r = Allowed b s r.1

stage_commands-ResultsAllowed :
    (b : Broker) (s : BrokerState) (cs : List Command) (m : MarketDataEnvelope)
    → Ensures (stage_commands b s cs m) (ResultsAllowed b s)
unfolding stage_commands
stage_commands-ResultsAllowed b s [] m = Changes.stay
stage_commands-ResultsAllowed b s (c ∷ cs) m =
    Ensures-bind (ResultAllowed b s) (ResultsAllowed b s) _ _ (stage_batch_command-Allowed b s c m)
      λ (result, t) h.
        Ensures-bind (ResultsAllowed b t) (ResultsAllowed b s) _ _
          (stage_commands-ResultsAllowed b t cs m) (λ r h'. Changes_trans h h')

abbrev BatchResultAllowed : Broker → BrokerState → PaperDecisionBatchResult × BrokerState → Type 0
BatchResultAllowed b s r = Allowed b s r.1

returned-BatchResultAllowed :
    (b : Broker) (s : BrokerState) (r : PaperDecisionBatchResult) (t : BrokerState)
    → Allowed b s t
    → Ensures (returned r t) (BatchResultAllowed b s)
unfolding returned
returned-BatchResultAllowed b s r t h =
    Ensures->>= (BatchResultAllowed b s) (check_match_result r.match_result) _
      λ _ _. Ensures->>= (BatchResultAllowed b s) (check_batch_result r) _ (λ _ _. h)

process_commands-BatchResultAllowed :
    (b : Broker) (s : BrokerState) (m : MarketDataEnvelope) (d : PaperDecision) (t : Batch)
    (matched : BrokerState)
    → Allowed b s matched
    → Ensures (process_commands b s m d t matched) (BatchResultAllowed b s)
unfolding process_commands
process_commands-BatchResultAllowed b s m d t matched h =
    Ensures->>= (BatchResultAllowed b s) (raise_if (exceeds b matched) BrokerFault.data_capacity) _
      λ _ _.
        Ensures-bind (ResultsAllowed b matched) (BatchResultAllowed b s) _ _
          (stage_commands-ResultsAllowed b matched d.commands m)
          λ (results, staged) h'.
            Ensures->>= (BatchResultAllowed b s)
              (raise_if (exceeds b staged) BrokerFault.batch_capacity) _
              (λ _ _. returned-BatchResultAllowed b s _ _ (Changes_trans h h'))

process_fenced-BatchResultAllowed :
    (b : Broker) (s : BrokerState) (m : MarketDataEnvelope) (d : PaperDecision) (known : Bool)
    → Ensures (process_fenced b s m d known) (BatchResultAllowed b s)
unfolding process_fenced process_duplicate process_new
process_fenced-BatchResultAllowed b s m d true =
    Ensures->>= (BatchResultAllowed b s)
      (raise_if
        (not (same (get s.decision_fingerprints m.ingest_sequence) (some (b.decision_digest d))))
        BrokerFault.decision_conflict)
      _ (λ _ _. returned-BatchResultAllowed b s _ s Changes.stay)
process_fenced-BatchResultAllowed b s m d false =
    Ensures->>= (BatchResultAllowed b s)
      (raise_if (leb b.limits.max_market_data_records (length s.envelope_fingerprints))
        BrokerFault.record_capacity)
      _
      λ _ _.
        Ensures-bind (BatchFrom b s) (BatchResultAllowed b s) _ _
          (process_payload-BatchFrom b s m m.payload)
          (λ (t, instruments) h.
            process_commands-BatchResultAllowed b s m d t (matched_state s m t instruments) h)

process_decision_batch-BatchResultAllowed :
    (b : Broker) (s : BrokerState) (m : MarketDataEnvelope) (d : PaperDecision)
    → Ensures (process_decision_batch b s m d) (BatchResultAllowed b s)
unfolding process_decision_batch
process_decision_batch-BatchResultAllowed b s m d =
    Ensures->>= (BatchResultAllowed b s)
      (raise_if
        (not (d.source_session_id == m.session_id)
          || not (d.source_ingest_sequence == m.ingest_sequence))
        BrokerFault.decision_mismatch)
      _
      λ _ _.
        Ensures->>= (BatchResultAllowed b s) (validate_envelope_fence b s m) _
          (λ known _. process_fenced-BatchResultAllowed b s m d known)

-- One call of the broker that returns.
pub data Call (b : Broker) : BrokerState → BrokerState → Type 0 where
  submits :
      {s t : BrokerState} (i : OrderIntent) (r : OrderCommandResult)
      → submit b s i ≡ ok (r, t)
      → Call b s t
  cancels :
      {s t : BrokerState} (c : CancelIntent) (r : OrderCommandResult)
      → cancel b s c ≡ ok (r, t)
      → Call b s t
  processes :
      {s t : BrokerState} (m : MarketDataEnvelope) (d : PaperDecision)
      (r : PaperDecisionBatchResult)
      → process_decision_batch b s m d ≡ ok (r, t)
      → Call b s t

-- Calls one after the other.
pub data Calls (b : Broker) : BrokerState → BrokerState → Type 0 where
  none_yet : {s : BrokerState} → Calls b s s
  and_then : {s t u : BrokerState} → Calls b s t → Call b t u → Calls b s u

pub Call-Allowed : {b : Broker} {s t : BrokerState} → Call b s t → Allowed b s t
Call-Allowed {b} {s} (Call.submits i r h) =
    Ensures-eq_ok (ResultAllowed b s) (submit b s i) (submit-Allowed b s i) h
Call-Allowed {b} {s} (Call.cancels c r h) =
    Ensures-eq_ok (ResultAllowed b s) (cancel b s c) (cancel-Allowed b s c) h
Call-Allowed {b} {s} (Call.processes m d r h) =
    Ensures-eq_ok (BatchResultAllowed b s) (process_decision_batch b s m d)
      (process_decision_batch-BatchResultAllowed b s m d) h

-- Whatever the limits, the fees and the slippage, calls of `submit`, `cancel` and
-- `process_decision_batch` that return, in any order and number, lead only to states that a
-- sequence of the contract's changes leads to: a submission's rejection recorded, events appended
-- with the next numbers, an order replaced by a snapshot that passes its checks and is a valid
-- transition from it, or a new order accepted under a key that has no outcome.
pub Calls-Allowed : {b : Broker} {s t : BrokerState} → Calls b s t → Allowed b s t
Calls-Allowed Calls.none_yet = Changes.stay
Calls-Allowed (Calls.and_then h x) = Changes_trans (Calls-Allowed h) (Call-Allowed x)
