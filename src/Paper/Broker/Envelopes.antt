-- ===== src/Paper/Broker/Envelopes.antt =====
-- tx_trade/orders/paper_broker.py: an envelope's admission and its matching, in
-- `process_decision_batch`.
use tx_trader.Common.{
  ℕ, Bool, true, false, ◌&&◌, not, Option, none, some, List, [], ◌∷◌, Outcome, ok, ◌>>=◌, ◌>>◌,
  raise_if, ltb, leb, ◌==◌, same, is_some, length, Dict, get, put, eq_nat, eq_pair,
}
use tx_trader.Paper.Matching.{
  InstrumentMetadataSnapshot, Quote, MatchSkipReason, Inspection, inspect_quote_top,
}
use tx_trader.Paper.Broker.State.{
  EnvelopePayload, MarketDataEnvelope, BrokerFault, Broker, BrokerState,
}
use tx_trader.Paper.Broker.Batch.{Capacities, Batch, by_ordinal}
use tx_trader.Paper.Broker.Matches.{stage_matches}

abbrev pub conflicts_with : Option ℕ → ℕ → Bool
conflicts_with none given = false
conflicts_with (some bound) given = not (given == bound)

abbrev pub is_before : ℕ → Option ℕ → Bool
is_before sequence none = false
is_before sequence (some last) = ltb sequence last

-- `_validate_envelope_fence` for an envelope whose sequence has, or has not, been seen: whether it
-- is a duplicate.
unfoldable pub fence_by :
    Broker → BrokerState → MarketDataEnvelope → Option ℕ → Outcome BrokerFault Bool
fence_by b s m (some previous) = do
  raise_if (not (previous == b.envelope_digest m)) BrokerFault.sequence_conflict
  ok true
fence_by b s m none = do
  raise_if (is_before m.ingest_sequence s.last_sequence) BrokerFault.out_of_order
  raise_if (is_some (get s.dedupe_sequences (b.dedupe_digest m.dedupe_key)))
      BrokerFault.dedupe_reused
  ok false

unfoldable pub validate_envelope_fence :
    Broker → BrokerState → MarketDataEnvelope → Outcome BrokerFault Bool
validate_envelope_fence b s m = do
  raise_if (conflicts_with s.effective_session m.session_id) BrokerFault.session_mismatch
  raise_if (conflicts_with s.bound_source m.source) BrokerFault.source_mismatch
  fence_by b s m (get s.envelope_fingerprints m.ingest_sequence)

unfoldable pub metadata_eq : InstrumentMetadataSnapshot → InstrumentMetadataSnapshot → Bool
metadata_eq a b =
    a.instrument_id == b.instrument_id
    && a.metadata_version == b.metadata_version
    && same a.price_scale b.price_scale
    && same a.quantity_scale b.quantity_scale
    && same a.currency b.currency

-- The tests of an instrument's version against the one that is known.
unfoldable pub check_metadata :
    Broker
    → BrokerState
    → InstrumentMetadataSnapshot
    → Option InstrumentMetadataSnapshot
    → Outcome BrokerFault (Unit {0})
check_metadata b s m (some known) =
    raise_if (not (metadata_eq known m)) BrokerFault.metadata_conflict
check_metadata b s m none =
    raise_if (leb b.limits.max_instrument_versions (length s.instruments))
      BrokerFault.metadata_capacity

-- The batch before the loop.
abbrev pub empty_batch : BrokerState → List MatchSkipReason → Capacities → Batch
empty_batch s reasons capacities = record {
  orders = s.orders;
  positions = s.positions;
  fills = s.fills;
  events = s.events;
  next_sequence = s.next_paper_sequence;
  result_fills = [];
  result_positions = [];
  result_events = [];
  reasons = reasons;
  capacities = capacities;
  fill_ordinal = 0;
}

abbrev pub skipped_batch : BrokerState → List MatchSkipReason → Batch
skipped_batch s reasons = empty_batch s reasons (record { of_buy = none; of_sell = none })

unfoldable pub match_inspected :
    Broker → BrokerState → MarketDataEnvelope → Quote → Inspection → Outcome BrokerFault Batch
match_inspected b s m q (Inspection.skipped reasons) = ok (skipped_batch s reasons)
match_inspected b s m q (Inspection.usable top) =
    stage_matches b m q.instrument_id top s.eligibility_sequence (by_ordinal s.acceptance_ordinal) (
      empty_batch s top.skip_reasons
        (record { of_buy = top.ask_capacity; of_sell = top.bid_capacity }))

-- The metadata of the envelope's version.
abbrev pub metadata_of : BrokerState → Quote → Option ℕ → Option InstrumentMetadataSnapshot
metadata_of s q none = none
metadata_of s q (some version) = get s.instruments (q.instrument_id, version)

abbrev pub Instruments : Type 0
Instruments = Dict (ℕ × ℕ) InstrumentMetadataSnapshot

-- The branches on the event's type: the batch, and the instruments.
unfoldable pub process_payload :
    Broker
    → BrokerState
    → MarketDataEnvelope
    → EnvelopePayload
    → Outcome BrokerFault (Batch × Instruments)
process_payload b s m (EnvelopePayload.instrument i) = do
  check_metadata b s i (get s.instruments (i.instrument_id, i.metadata_version))
  ok (
    skipped_batch s (MatchSkipReason.event_not_quote ∷ []),
    put s.instruments (i.instrument_id, i.metadata_version) i,
  )
process_payload b s m (EnvelopePayload.quote q) = do
  t ← match_inspected b s m q (inspect_quote_top q (metadata_of s q m.metadata_version))
  ok (t, s.instruments)
process_payload b s m EnvelopePayload.other =
    ok (skipped_batch s (MatchSkipReason.event_not_quote ∷ []), s.instruments)
