-- ===== src/Paper/Broker/Redelivered.antt =====
-- A decision batch that is delivered again is reported as a duplicate and changes nothing.
use tx_trader.Common.{
  ℕ, ◌≡◌, refl, ap, ◌∙◌, Bool, true, false, ◌||◌, not, Option, none, some, [], ok, raise_if,
  raise_if-eq_ok, >>-eq_ok, Ensures, Ensures->>=, Ensures-bind, Ensures-map, Ensures-eq_ok, leb,
  ◌==◌, same, is_some, length, get, eq_nat, eq_pair, get-put_self, arith,
}
use tx_trader.Paper.Equality.{starts_with}
use tx_trader.Paper.Broker.State.{
  PaperDecision, MarketDataEnvelope, BrokerFault, Broker, BrokerState,
}
use tx_trader.Paper.Broker.Results.{
  PaperDecisionBatchResult, every, has_no_duplicates, check_match_result, increases,
  check_batch_result,
}
use tx_trader.Paper.Broker.Envelopes.{
  conflicts_with, is_before, fence_by, validate_envelope_fence, process_payload,
}
use tx_trader.Paper.Broker.Process.{
  matched_state, exceeds, batch_result_of, returned, process_commands, process_new, duplicate_match,
  process_duplicate, process_fenced, process_decision_batch,
}
use tx_trader.Paper.Broker.Fed.{feed, stage_commands-feed}

-- What a state holds after it has processed this envelope with this decision.
pub record Knows (b : Broker) (m : MarketDataEnvelope) (d : PaperDecision) (s : BrokerState)
    : Type 0 where
  pub session : conflicts_with s.effective_session m.session_id ≡ false
  pub source : conflicts_with s.bound_source m.source ≡ false
  pub seen : get s.envelope_fingerprints m.ingest_sequence ≡ some (b.envelope_digest m)
  pub decided : get s.decision_fingerprints m.ingest_sequence ≡ some (b.decision_digest d)

abbrev Leaves :
    Broker → MarketDataEnvelope → PaperDecision → PaperDecisionBatchResult × BrokerState → Type 0
Leaves b m d r = Knows b m d r.1

no_conflict : (x : ℕ) → conflicts_with (some x) x ≡ false
no_conflict x = ground arith

returned-Leaves :
    (b : Broker) (m : MarketDataEnvelope) (d : PaperDecision) (r : PaperDecisionBatchResult)
    (s : BrokerState)
    → Knows b m d s
    → Ensures (returned r s) (Leaves b m d)
unfolding returned
returned-Leaves b m d r s h =
    Ensures->>= (Leaves b m d) (check_match_result r.match_result) _
      λ _ _. Ensures->>= (Leaves b m d) (check_batch_result r) _ (λ _ _. h)

process_new-Leaves :
    (b : Broker) (s : BrokerState) (m : MarketDataEnvelope) (d : PaperDecision)
    → Ensures (process_new b s m d) (Leaves b m d)
unfolding process_new process_commands
process_new-Leaves b s m d =
    Ensures->>= (Leaves b m d)
      (raise_if (leb b.limits.max_market_data_records (length s.envelope_fingerprints))
        BrokerFault.record_capacity)
      _
      λ _ _. Ensures->>= (Leaves b m d) (process_payload b s m m.payload) _ λ (t, instruments) _.
        Ensures->>= (Leaves b m d)
          (raise_if (exceeds b (matched_state s m t instruments)) BrokerFault.data_capacity) _
          λ _ _.
            Ensures-bind (λ r. feed r.1 ≡ feed (matched_state s m t instruments)) (Leaves b m d) _ _
              (stage_commands-feed b (matched_state s m t instruments) d.commands m)
              λ (results, staged) h.
                Ensures->>= (Leaves b m d) (raise_if (exceeds b staged) BrokerFault.batch_capacity)
                  _
                  λ _ _. returned-Leaves b m d _ _ (record {
                    session = rw (ap (λ f. f.session) h) (no_conflict m.session_id);
                    source = rw (ap (λ f. f.source) h) (no_conflict m.source);
                    seen =
                        get-put_self s.envelope_fingerprints m.ingest_sequence
                          (b.envelope_digest m);
                    decided =
                        get-put_self s.decision_fingerprints m.ingest_sequence
                          (b.decision_digest d);
                  })

decided_as : (o : Option ℕ) (x : ℕ) → not (same o (some x)) ≡ false → o ≡ some x
decided_as o x h = ground arith

process_duplicate-Leaves :
    (b : Broker) (s : BrokerState) (m : MarketDataEnvelope) (d : PaperDecision)
    → conflicts_with s.effective_session m.session_id ≡ false
    → conflicts_with s.bound_source m.source ≡ false
    → get s.envelope_fingerprints m.ingest_sequence ≡ some (b.envelope_digest m)
    → Ensures (process_duplicate b s m d) (Leaves b m d)
unfolding process_duplicate
process_duplicate-Leaves b s m d session source seen =
    let decisions = get s.decision_fingerprints m.ingest_sequence in
    Ensures->>= (Leaves b m d)
      (raise_if (not (same decisions (some (b.decision_digest d)))) BrokerFault.decision_conflict) _
      λ _ decided. returned-Leaves b m d _ s (record {
        session = session;
        source = source;
        seen = seen;
        decided = decided_as decisions (b.decision_digest d) (raise_if-eq_ok _ _ decided);
      })

-- What the fence has checked of an envelope that it knows.
abbrev IfKnown : Broker → BrokerState → MarketDataEnvelope → Bool → Type 0
IfKnown b s m true = get s.envelope_fingerprints m.ingest_sequence ≡ some (b.envelope_digest m)
IfKnown b s m false = Unit {0}

is_digest : (x y : ℕ) → not (x == y) ≡ false → x ≡ y
is_digest x y h = ground arith

fence_by-IfKnown :
    (b : Broker) (s : BrokerState) (m : MarketDataEnvelope) (previous : Option ℕ)
    → get s.envelope_fingerprints m.ingest_sequence ≡ previous
    → Ensures (fence_by b s m previous) (IfKnown b s m)
unfolding fence_by
fence_by-IfKnown b s m (some previous) h =
    Ensures->>= (IfKnown b s m)
      (raise_if (not (previous == b.envelope_digest m)) BrokerFault.sequence_conflict) _
      (λ _ agrees.
        h ∙ ap some (is_digest previous (b.envelope_digest m) (raise_if-eq_ok _ _ agrees)))
fence_by-IfKnown b s m none h =
    Ensures->>= (IfKnown b s m)
      (raise_if (is_before m.ingest_sequence s.last_sequence) BrokerFault.out_of_order) _
      λ _ _.
        Ensures->>= (IfKnown b s m)
          (raise_if (is_some (get s.dedupe_sequences (b.dedupe_digest m.dedupe_key)))
            BrokerFault.dedupe_reused)
          _ (λ _ _. tt)

process_fenced-Leaves :
    (b : Broker) (s : BrokerState) (m : MarketDataEnvelope) (d : PaperDecision) (known : Bool)
    → conflicts_with s.effective_session m.session_id ≡ false
    → conflicts_with s.bound_source m.source ≡ false
    → IfKnown b s m known
    → Ensures (process_fenced b s m d known) (Leaves b m d)
unfolding process_fenced
process_fenced-Leaves b s m d true session source seen =
    process_duplicate-Leaves b s m d session source seen
process_fenced-Leaves b s m d false session source seen = process_new-Leaves b s m d

-- What the fence has checked of an envelope that it lets through.
abbrev Fenced : Broker → BrokerState → MarketDataEnvelope → Bool → Type 0
Fenced b s m known =
    (conflicts_with s.effective_session m.session_id ≡ false)
    × (conflicts_with s.bound_source m.source ≡ false)
    × IfKnown b s m known

validate_envelope_fence-Fenced :
    (b : Broker) (s : BrokerState) (m : MarketDataEnvelope)
    → Ensures (validate_envelope_fence b s m) (Fenced b s m)
unfolding validate_envelope_fence
validate_envelope_fence-Fenced b s m =
    Ensures->>= (Fenced b s m)
      (raise_if (conflicts_with s.effective_session m.session_id) BrokerFault.session_mismatch) _
      λ _ session.
        Ensures->>= (Fenced b s m)
          (raise_if (conflicts_with s.bound_source m.source) BrokerFault.source_mismatch) _
          λ _ source.
            Ensures-map (fence_by b s m (get s.envelope_fingerprints m.ingest_sequence))
              (fence_by-IfKnown b s m _ refl)
              (λ known seen. (raise_if-eq_ok _ _ session, raise_if-eq_ok _ _ source, seen))

process_decision_batch-Leaves :
    (b : Broker) (s : BrokerState) (m : MarketDataEnvelope) (d : PaperDecision)
    → Ensures (process_decision_batch b s m d) (Leaves b m d)
unfolding process_decision_batch
process_decision_batch-Leaves b s m d =
    Ensures->>= (Leaves b m d)
      (raise_if
        (not (d.source_session_id == m.session_id)
          || not (d.source_ingest_sequence == m.ingest_sequence))
        BrokerFault.decision_mismatch)
      _
      λ _ _.
        Ensures-bind (Fenced b s m) (Leaves b m d) _ _ (validate_envelope_fence-Fenced b s m)
          (λ known (session, source, seen). process_fenced-Leaves b s m d known session source seen)

-- The decision is the envelope's.
abbrev has_other_cause : MarketDataEnvelope → PaperDecision → Bool
has_other_cause m d =
    not (d.source_session_id == m.session_id) || not (d.source_ingest_sequence == m.ingest_sequence)

process_decision_batch-cause :
    (b : Broker) (s : BrokerState) (m : MarketDataEnvelope) (d : PaperDecision)
    {r : PaperDecisionBatchResult × BrokerState}
    → process_decision_batch b s m d ≡ ok r
    → has_other_cause m d ≡ false
unfolding process_decision_batch
process_decision_batch-cause b s m d h =
    let (cause, rest) =
      >>-eq_ok (raise_if (has_other_cause m d) BrokerFault.decision_mismatch) _ h in
    raise_if-eq_ok _ _ cause

equal_self : (x : ℕ) → (x == x) ≡ true
equal_self x = ground arith

-- The result of a duplicate.
abbrev pub duplicate_result :
    Broker → BrokerState → MarketDataEnvelope → PaperDecision → PaperDecisionBatchResult
duplicate_result b s m d = batch_result_of b m d (duplicate_match b m s.snapshot_version) [] []

duplicate_returned :
    (b : Broker) (s : BrokerState) (m : MarketDataEnvelope) (d : PaperDecision)
    → returned (duplicate_result b s m d) s ≡ ok (duplicate_result b s m d, s)
unfolding returned check_match_result check_batch_result every has_no_duplicates starts_with
    increases
duplicate_returned b s m d =
    rw (equal_self b.paper_run_id)
      (rw (equal_self m.session_id) (rw (equal_self m.ingest_sequence) refl))

Knows-duplicate :
    (b : Broker) (s : BrokerState) (m : MarketDataEnvelope) (d : PaperDecision)
    → has_other_cause m d ≡ false
    → Knows b m d s
    → process_decision_batch b s m d ≡ ok (duplicate_result b s m d, s)
unfolding process_decision_batch validate_envelope_fence fence_by process_fenced process_duplicate
Knows-duplicate b s m d cause k =
    let session = k.session in
    let source = k.source in
    let seen = k.seen in
    let decided = k.decided in
    rw cause (
      rw session (
        rw source (
          rw seen (
            rw (equal_self (b.envelope_digest m))
              (rw decided (rw (equal_self (b.decision_digest d)) (duplicate_returned b s m d)))))))

-- If an envelope's decision batch returns, then the same batch delivered again returns a duplicate:
-- no fills, no events, no positions and no results of commands. The state stays as it is.
pub batch_redelivered :
    (b : Broker) (s t : BrokerState) (m : MarketDataEnvelope) (d : PaperDecision)
    (r : PaperDecisionBatchResult)
    → process_decision_batch b s m d ≡ ok (r, t)
    → process_decision_batch b t m d ≡ ok (duplicate_result b t m d, t)
batch_redelivered b s t m d r h = Knows-duplicate b t m d (process_decision_batch-cause b s m d h) (
    Ensures-eq_ok (Leaves b m d) (process_decision_batch b s m d)
      (process_decision_batch-Leaves b s m d) h)
