-- ===== src/Paper/Broker/Limited.antt =====
-- The broker never keeps more events, fills and positions than its limits allow.
use tx_trader.Common.{
  ℕ, ◌≡◌, Bool, true, false, ◌||◌, not, Option, some, raise_if, raise_if-eq_ok, Ensures,
  Ensures->>=, Ensures-eq_ok, leb, ◌==◌, same, length, get, eq_nat, eq_pair, eq_triple, arith,
}
use tx_trader.Paper.Broker.State.{
  Broker, BrokerFault, BrokerState, PaperDecision, MarketDataEnvelope, initial,
}
use tx_trader.Paper.Broker.Commands.{submit}
use tx_trader.Paper.Broker.Cancel.{cancel}
use tx_trader.Paper.Broker.Results.{
  PaperDecisionBatchResult, check_match_result, check_batch_result,
}
use tx_trader.Paper.Broker.Envelopes.{validate_envelope_fence, process_payload}
use tx_trader.Paper.Broker.Process.{
  matched_state, stage_commands, exceeds, returned, process_commands, process_new,
  process_duplicate, process_fenced, process_decision_batch,
}
use tx_trader.Paper.Broker.Processing.{Call, Calls}
use tx_trader.Paper.Broker.Room.{IsLimited, LimitedResult, submit-LimitedResult}
use tx_trader.Paper.Broker.CancelRoom.{cancel-LimitedResult}

abbrev LimitedBatch : Broker → PaperDecisionBatchResult × BrokerState → Type 0
LimitedBatch b r = IsLimited b r.1

returned-LimitedBatch :
    (b : Broker) (r : PaperDecisionBatchResult) (s : BrokerState)
    → IsLimited b s
    → Ensures (returned r s) (LimitedBatch b)
unfolding returned
returned-LimitedBatch b r s h =
    Ensures->>= (LimitedBatch b) (check_match_result r.match_result) _
      λ _ _. Ensures->>= (LimitedBatch b) (check_batch_result r) _ (λ _ _. h)

not_exceeding : (b : Broker) (s : BrokerState) → exceeds b s ≡ false → IsLimited b s
unfolding exceeds
not_exceeding b s h = ground arith

process_fenced-LimitedBatch :
    (b : Broker) (s : BrokerState) (m : MarketDataEnvelope) (d : PaperDecision) (known : Bool)
    → IsLimited b s
    → Ensures (process_fenced b s m d known) (LimitedBatch b)
unfolding process_fenced process_duplicate process_new process_commands
process_fenced-LimitedBatch b s m d true h =
    Ensures->>= (LimitedBatch b)
      (raise_if
        (not (same (get s.decision_fingerprints m.ingest_sequence) (some (b.decision_digest d))))
        BrokerFault.decision_conflict)
      _ (λ _ _. returned-LimitedBatch b _ s h)
process_fenced-LimitedBatch b s m d false h =
    Ensures->>= (LimitedBatch b)
      (raise_if (leb b.limits.max_market_data_records (length s.envelope_fingerprints))
        BrokerFault.record_capacity)
      _
      λ _ _. Ensures->>= (LimitedBatch b) (process_payload b s m m.payload) _ λ (t, instruments) _.
        Ensures->>= (LimitedBatch b)
          (raise_if (exceeds b (matched_state s m t instruments)) BrokerFault.data_capacity) _
          λ _ _.
            Ensures->>= (LimitedBatch b)
              (stage_commands b (matched_state s m t instruments) d.commands m) _
              λ (results, staged) _.
                Ensures->>= (LimitedBatch b)
                  (raise_if (exceeds b staged) BrokerFault.batch_capacity) _
                  (λ _ few.
                    returned-LimitedBatch b _ _ (not_exceeding b staged (raise_if-eq_ok _ _ few)))

process_decision_batch-LimitedBatch :
    (b : Broker) (s : BrokerState) (m : MarketDataEnvelope) (d : PaperDecision)
    → IsLimited b s
    → Ensures (process_decision_batch b s m d) (LimitedBatch b)
unfolding process_decision_batch
process_decision_batch-LimitedBatch b s m d h =
    Ensures->>= (LimitedBatch b)
      (raise_if
        (not (d.source_session_id == m.session_id)
          || not (d.source_ingest_sequence == m.ingest_sequence))
        BrokerFault.decision_mismatch)
      _
      λ _ _.
        Ensures->>= (LimitedBatch b) (validate_envelope_fence b s m) _
          (λ known _. process_fenced-LimitedBatch b s m d known h)

Call-IsLimited : {b : Broker} {s t : BrokerState} → Call b s t → IsLimited b s → IsLimited b t
Call-IsLimited {b} {s} (Call.submits i r h) k =
    Ensures-eq_ok (LimitedResult b) (submit b s i) (submit-LimitedResult b s i k) h
Call-IsLimited {b} {s} (Call.cancels c r h) k =
    Ensures-eq_ok (LimitedResult b) (cancel b s c) (cancel-LimitedResult b s c k) h
Call-IsLimited {b} {s} (Call.processes m d r h) k =
    Ensures-eq_ok (LimitedBatch b) (process_decision_batch b s m d)
      (process_decision_batch-LimitedBatch b s m d k) h

-- After any calls of a broker that started empty, it keeps at most as many events, fills and
-- positions as its limits say.
pub Calls-IsLimited :
    (b : Broker) (session : Option ℕ) {s : BrokerState}
    → Calls b (initial session) s
    → IsLimited b s
unfolding initial
Calls-IsLimited b session Calls.none_yet = (omega arith, omega arith, omega arith)
Calls-IsLimited b session (Calls.and_then h x) = Call-IsLimited x (Calls-IsLimited b session h)
