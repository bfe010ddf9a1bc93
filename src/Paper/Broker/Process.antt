-- ===== src/Paper/Broker/Process.antt =====
-- tx_trade/orders/paper_broker.py: `process_market_data` and `process_decision_batch`.
use tx_trader.Common.{
  ℕ, zero, suc, ◌+◌, Bool, true, false, ◌||◌, not, some, List, [], ◌∷◌, ◌++◌, Outcome, ok, ◌>>=◌,
  ◌>>◌, raise_if, ltb, leb, ◌==◌, same, if◌then◌else◌, length, get, put, eq_nat, eq_pair,
}
use tx_trader.Paper.Matching.{MatchSkipReason}
use tx_trader.Paper.Events.{PaperEvent}
use tx_trader.Paper.Broker.State.{
  OrderCommandResult, Command, PaperDecision, MarketDataEnvelope, BrokerFault, Broker, BrokerState,
}
use tx_trader.Paper.Broker.Batched.{stage_batch_command}
use tx_trader.Paper.Broker.Batch.{Batch}
use tx_trader.Paper.Broker.Results.{
  MatchDisposition, MatchResult, PaperDecisionBatchResult, has_reason, check_match_result,
  check_batch_result,
}
use tx_trader.Paper.Broker.Envelopes.{Instruments, validate_envelope_fence, process_payload}

-- The state after the matching, before the commands.
abbrev pub matched_state : BrokerState → MarketDataEnvelope → Batch → Instruments → BrokerState
matched_state s m t instruments = record s {
  effective_session = some m.session_id;
  bound_session = some m.session_id;
  bound_source = some m.source;
  last_sequence = some m.ingest_sequence;
  next_paper_sequence = t.next_sequence;
  orders = t.orders;
  positions = t.positions;
  fills = t.fills;
  events = t.events;
  instruments = instruments;
}

-- The loop over the commands.
unfoldable pub stage_commands :
    Broker
    → BrokerState
    → List Command
    → MarketDataEnvelope
    → Outcome BrokerFault (List OrderCommandResult × BrokerState)
stage_commands b s [] m = ok ([], s)
stage_commands b s (c ∷ cs) m = do
  (result, t) ← stage_batch_command b s c m
  (results, u) ← stage_commands b t cs m
  ok (result ∷ results, u)

unfoldable pub exceeds : Broker → BrokerState → Bool
exceeds b s =
    ltb b.limits.max_fills (length s.fills)
    || ltb b.limits.max_events (length s.events)
    || ltb b.limits.max_positions (length s.positions)

-- The state that is committed.
abbrev pub recorded :
    Broker → BrokerState → BrokerState → MarketDataEnvelope → PaperDecision → BrokerState
recorded b s t m d = record t {
  snapshot_version = s.snapshot_version + 1;
  envelope_fingerprints = put s.envelope_fingerprints m.ingest_sequence (b.envelope_digest m);
  decision_fingerprints = put s.decision_fingerprints m.ingest_sequence (b.decision_digest d);
  dedupe_sequences = put s.dedupe_sequences (b.dedupe_digest m.dedupe_key) m.ingest_sequence;
}

-- `_unique_reasons`: the first of each.
unfoldable pub unique_from : List MatchSkipReason → List MatchSkipReason → List MatchSkipReason
unique_from seen [] = seen
unique_from seen (r ∷ rs) =
    if has_reason r seen then unique_from seen rs else unique_from (seen ++ (r ∷ [])) rs

-- `staged.events[command_event_start:]`
unfoldable pub drop : {A : Type 0} → ℕ → List A → List A
drop zero l = l
drop (suc n) [] = []
drop (suc n) (x ∷ l) = drop n l

abbrev pub batch_result_of :
    Broker
    → MarketDataEnvelope
    → PaperDecision
    → MatchResult
    → List OrderCommandResult
    → List PaperEvent
    → PaperDecisionBatchResult
batch_result_of b m d match_result results events = record {
  paper_run_id = b.paper_run_id;
  source_session_id = m.session_id;
  source_ingest_sequence = m.ingest_sequence;
  decision_fingerprint = b.decision_digest d;
  match_result = match_result;
  command_results = results;
  events = events;
}

abbrev pub BatchOutcome : Type 0
BatchOutcome = Outcome BrokerFault (PaperDecisionBatchResult × BrokerState)

-- The result with its checks.
unfoldable pub returned : PaperDecisionBatchResult → BrokerState → BatchOutcome
returned r s = do check_match_result r.match_result; check_batch_result r; ok (r, s)

abbrev pub processed_match : Broker → MarketDataEnvelope → Batch → ℕ → MatchResult
processed_match b m t version = record {
  paper_run_id = b.paper_run_id;
  disposition = MatchDisposition.processed;
  source_session_id = m.session_id;
  source_ingest_sequence = m.ingest_sequence;
  fills = t.result_fills;
  events = t.result_events;
  skip_reasons = unique_from [] t.reasons;
  snapshot_version = version;
  positions = t.result_positions;
}

-- The commands, once the envelope has been matched.
unfoldable pub process_commands :
    Broker → BrokerState → MarketDataEnvelope → PaperDecision → Batch → BrokerState → BatchOutcome
process_commands b s m d t matched = do
  raise_if (exceeds b matched) BrokerFault.data_capacity
  (results, staged) ← stage_commands b matched d.commands m
  raise_if (exceeds b staged) BrokerFault.batch_capacity
  returned
      (batch_result_of b m d (processed_match b m t (s.snapshot_version + 1)) results
        (t.result_events ++ drop (length matched.events) staged.events))
      (recorded b s staged m d)

unfoldable pub process_new :
    Broker → BrokerState → MarketDataEnvelope → PaperDecision → BatchOutcome
process_new b s m d = do
  raise_if (leb b.limits.max_market_data_records (length s.envelope_fingerprints))
      BrokerFault.record_capacity
  (t, instruments) ← process_payload b s m m.payload
  process_commands b s m d t (matched_state s m t instruments)

abbrev pub duplicate_match : Broker → MarketDataEnvelope → ℕ → MatchResult
duplicate_match b m version = record {
  paper_run_id = b.paper_run_id;
  disposition = MatchDisposition.duplicate;
  source_session_id = m.session_id;
  source_ingest_sequence = m.ingest_sequence;
  fills = [];
  events = [];
  skip_reasons = [];
  snapshot_version = version;
  positions = [];
}

unfoldable pub process_duplicate :
    Broker → BrokerState → MarketDataEnvelope → PaperDecision → BatchOutcome
process_duplicate b s m d = do
  raise_if (not (same (get s.decision_fingerprints m.ingest_sequence) (some (b.decision_digest d))))
      BrokerFault.decision_conflict
  returned (batch_result_of b m d (duplicate_match b m s.snapshot_version) [] []) s

unfoldable pub process_fenced :
    Broker → BrokerState → MarketDataEnvelope → PaperDecision → Bool → BatchOutcome
process_fenced b s m d true = process_duplicate b s m d
process_fenced b s m d false = process_new b s m d

unfoldable pub process_decision_batch :
    Broker → BrokerState → MarketDataEnvelope → PaperDecision → BatchOutcome
process_decision_batch b s m d = do
  raise_if
      (not (d.source_session_id == m.session_id)
        || not (d.source_ingest_sequence == m.ingest_sequence))
      BrokerFault.decision_mismatch
  is_known ← validate_envelope_fence b s m
  process_fenced b s m d is_known

-- `process_market_data`: a decision without commands.
unfoldable pub process_market_data :
    Broker → BrokerState → MarketDataEnvelope → Outcome BrokerFault (MatchResult × BrokerState)
process_market_data b s m = do
  (r, t) ← process_decision_batch b s m (record {
    source_session_id = m.session_id;
    source_ingest_sequence = m.ingest_sequence;
    commands = [];
  })
  ok (r.match_result, t)
