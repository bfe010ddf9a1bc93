-- ===== src/Paper/Tests/Brokers.antt =====
-- A broker that accepts an order of three units, fills two of them on a quote, and is asked again.
use tx_trader.Common.{
  ℕ, ◌^◌, zero, suc, ◌+◌, ◌≡◌, refl, ap, true, false, Dict, none, some, ok, List, [], ◌∷◌, pos,
  arith, get, put, eq_nat, eq_pair, eq_triple, ◌+ℤ◌,
}
use tx_trader.Decimals.{add, sub, mul, div, round_to, round_at, quantum, half_even}
use tx_trader.Paper.Tests.{intent}
use tx_trader.Paper.Contracts.{
  PaperOrder, check_status, check_accepted, check_paper_order, order_side_eq, order_type_eq,
  order_intent_eq,
}
use tx_trader.Paper.Transition.{
  can_transition, check_identity, check_fills, validate_order_transition,
}
use tx_trader.Paper.Progress.{Life}
use tx_trader.Paper.Position.{
  PaperFill, check_paper_fill, check_paper_position, check_continuation, new_average, weighted_with,
  booked, book, apply_fill_to_position,
}
use tx_trader.Paper.Matching.{
  capacity, inspect_book, inspect_quantity, inspect_quote_top, execution_price_at, execution_price,
}
use tx_trader.Paper.Policies.{
  SlippageMode, PaperFeeSchedule, slippage_delta, moved, gap, is_favourable, accept_slippage,
  assess_slippage, within_limit, assess_limit, assess_fee, ExactContext,
}
use tx_trader.Paper.Events.{PaperBrokerLimits, carries, same_cause, check_event}
use tx_trader.Paper.Broker.State.{
  OrderCommandResult, PaperDecision, EnvelopePayload, MarketDataEnvelope, Broker, BrokerState,
  initial, open_order_count, OutcomeRecord,
}
use tx_trader.Paper.Broker.Commands.{
  make_event, accept_order, is_full, submit_within, joined_session, submit_new, submit_by, submit,
}
use tx_trader.Paper.Broker.Batch.{
  insert_by_ordinal, by_ordinal, is_ineligible, weighted_average, matched_average,
}
use tx_trader.Paper.Broker.Fills.{update_order, stage_fill, book_fill}
use tx_trader.Paper.Broker.Matches.{
  fill_charged, fill_limited, fill_priced, fill_available, fill_crossed, match_order, match_found,
  stage_matches,
}
use tx_trader.Paper.Broker.Results.{
  PaperDecisionBatchResult, every, has_reason, has_no_duplicates, check_match_result, increases,
  check_batch_result,
}
use tx_trader.Paper.Broker.Envelopes.{
  fence_by, validate_envelope_fence, check_metadata, match_inspected, process_payload,
}
use tx_trader.Paper.Broker.Process.{
  stage_commands, exceeds, unique_from, drop, returned, process_commands, process_new,
  process_fenced, process_decision_batch,
}
use tx_trader.Paper.Broker.Changes.{core}
use tx_trader.Paper.Broker.Processing.{Call, Calls, Calls-Allowed}
use tx_trader.Paper.Broker.Allowed.{Allowed}
use tx_trader.Paper.Broker.Journal.{IsJournalled, Calls-IsJournalled}
use tx_trader.Paper.Broker.Owned.{IsSound, Calls-IsSound}
use tx_trader.Paper.Equality.{paper_event_eq, starts_with}
use tx_trader.Paper.Broker.Names.{order_name, event_id, fill_id}
use tx_trader.Paper.Broker.Separated.{is_free, IsSeparated}
use tx_trader.Paper.Broker.Snapshots.{IsContinued, Calls-IsContinued}
use tx_trader.Paper.Broker.Room.{IsLimited}
use tx_trader.Paper.Broker.Limited.{Calls-IsLimited}
use tx_trader.Paper.Broker.Retried.{submit_idempotent, get_order-submit}
use tx_trader.Paper.Broker.Queries.{get_order}
use tx_trader.Paper.Broker.Redelivered.{duplicate_result, batch_redelivered}

-- Different pairs have different numbers.
unfoldable pub twist : ℕ → ℕ → ℕ
twist zero c = c + c + 1
twist (suc a) c = let t = twist a c in t + t

twist_injective : (a c a' c' : ℕ) → twist a c ≡ twist a' c' → ◌≡◌ {A = ℕ × ℕ} (a, c) (a', c')
unfolding twist
twist_injective zero c zero c' h = let same_c : c ≡ c' = omega (arith, h) in rw same_c refl
twist_injective zero c (suc a') c' h = absurd (omega (arith, h))
twist_injective (suc a) c zero c' h = absurd (omega (arith, h))
twist_injective (suc a) c (suc a') c' h =
    let half : twist a c ≡ twist a' c' = omega (arith, h) in
    ap (λ p. (suc p.0, p.1)) (twist_injective a c a' c' half)

abbrev limits : PaperBrokerLimits
limits = record {
  max_orders = 4;
  max_open_orders = 4;
  max_fills = 4;
  max_events = 12;
  max_market_data_records = 4;
  max_instrument_versions = 4;
  max_positions = 4;
}

-- Different names have different numbers.
unfoldable pub name_number : List ℕ → ℕ
name_number [] = 0
name_number (c ∷ s) = suc (twist c (name_number s))

name_number_injective : (s t : List ℕ) → name_number s ≡ name_number t → s ≡ t
unfolding name_number
name_number_injective [] [] h = refl
name_number_injective [] (d ∷ t) h = absurd (omega (arith, h))
name_number_injective (c ∷ s) [] h = absurd (omega (arith, h))
name_number_injective (c ∷ s) (d ∷ t) h =
    let twisted : twist c (name_number s) ≡ twist d (name_number t) = omega (arith, h) in
    let parts = twist_injective c (name_number s) d (name_number t) twisted in
    let first : c ≡ d = ap (λ p. p.0) parts in
    let rest : s ≡ t = name_number_injective s t (ap (λ p. p.1) parts) in cc

abbrev pub exact_context : ExactContext
exact_context = record {
  is_exact_product = λ r quantity. true;
  is_exact_difference = λ r before after. true;
}

abbrev pub broker : Broker
broker = record {
  paper_run_id = 5;
  limits = limits;
  slippage = record { mode = SlippageMode.absolute; value = 1 };
  fee_schedule = PaperFeeSchedule.zero_fees;
  config_fingerprint = 0;
  grid = record { one = 1; finest = 1; coarsest = 10 ^ 6_144 };
  lot = 1;
  exact_context = exact_context;
  uuid5 = name_number;
  text = λ n. (n + 32) ∷ [];
  str_uuid = λ id. [];
  str_int = λ n. (n + 48) ∷ [];
  position_id = λ run strategy account instrument. run + strategy + account + instrument;
  submit_digest = λ i. i.created_at;
  cancel_digest = λ c. c.requested_at;
  decision_digest = λ d. d.source_ingest_sequence;
  envelope_digest = λ m. m.ingest_sequence;
  dedupe_digest = λ key. key;
}

free_text : (n : ℕ) → is_free ((n + 32) ∷ []) ≡ true
unfolding is_free
free_text n = ground arith

same_text : (m n : ℕ) → ◌≡◌ {A = List ℕ} ((m + 32) ∷ []) ((n + 32) ∷ []) → m ≡ n
same_text m n h = let same_char : m + 32 ≡ n + 32 = cc in omega (arith, same_char)

broker-IsSeparated : (outcomes : Dict (ℕ × ℕ) OutcomeRecord) → IsSeparated broker outcomes
broker-IsSeparated outcomes = record {
  spelled = same_text;
  free = λ key h. free_text key.0;
  apart = λ key key' h h' e. name_number_injective _ _ e;
}

abbrev pub start : BrokerState
start = initial none

-- The order is accepted.
unfoldable pub first_call :
    (o : PaperOrder) × (t : BrokerState) × (submit broker start intent
      ≡ ok (OrderCommandResult.of_order o, t))
unfolding initial submit submit_by submit_new submit_within joined_session is_full open_order_count
    accept_order make_event check_event carries same_cause check_paper_order check_status
    check_accepted add round_to round_at quantum half_even get put twist name_number order_name
    event_id
first_call = (_, _, refl)

-- The instrument's metadata arrives, and then a quote with two units to buy.
abbrev metadata : MarketDataEnvelope
metadata = record {
  session_id = 9;
  source = 1;
  ingest_sequence = 0;
  event_at = some 30;
  received_at = 31;
  metadata_version = some 1;
  dedupe_key = 100;
  payload = EnvelopePayload.instrument (record {
    instrument_id = 4;
    metadata_version = 1;
    price_scale = some 1;
    quantity_scale = some 1;
    currency = none;
  });
}

abbrev pub quote : MarketDataEnvelope
quote = record metadata {
  ingest_sequence = 1;
  event_at = some 40;
  dedupe_key = 101;
  payload = EnvelopePayload.quote (record {
    instrument_id = 4;
    bid_normalized = some (pos 47);
    ask_normalized = some (pos 48);
    bid_qty_raw = some 5;
    ask_qty_raw = some 2;
    is_simulated = some false;
    price_scale = some 1;
  });
}

abbrev decision : ℕ → PaperDecision
decision sequence = record {
  source_session_id = 9;
  source_ingest_sequence = sequence;
  commands = [];
}

unfoldable pub second_call :
    (r : PaperDecisionBatchResult) × (t : BrokerState) × (process_decision_batch broker first_call.1
        metadata
        (decision 0)
      ≡ ok (r, t))
unfolding initial twist name_number order_name event_id fill_id get put process_decision_batch
    validate_envelope_fence fence_by process_fenced process_new process_payload check_metadata
    process_commands exceeds stage_commands returned unique_from drop check_match_result every
    has_reason has_no_duplicates starts_with paper_event_eq check_batch_result increases first_call
second_call = (_, _, refl)

third_call :
    (r : PaperDecisionBatchResult) × (t : BrokerState) × (process_decision_batch broker
        second_call.1 quote
        (decision 1)
      ≡ ok (r, t))
unfolding initial twist name_number order_name event_id fill_id get put process_decision_batch
    validate_envelope_fence fence_by process_fenced process_new process_payload check_metadata
    process_commands exceeds stage_commands returned unique_from drop check_match_result every
    has_reason has_no_duplicates starts_with paper_event_eq check_batch_result increases
    match_inspected inspect_quote_top inspect_quantity inspect_book capacity stage_matches
    by_ordinal insert_by_ordinal match_found match_order is_ineligible fill_crossed execution_price
    execution_price_at fill_available fill_priced assess_slippage slippage_delta moved
    accept_slippage gap is_favourable fill_limited assess_limit within_limit fill_charged assess_fee
    check_paper_fill update_order weighted_average matched_average check_paper_order check_status
    check_accepted validate_order_transition check_identity order_intent_eq order_side_eq
    order_type_eq can_transition check_fills book_fill apply_fill_to_position check_continuation
    book booked new_average weighted_with check_paper_position ◌+ℤ◌ stage_fill make_event
    check_event carries same_cause add sub mul div round_to round_at quantum half_even first_call
    second_call
third_call = (_, _, refl)

-- Two of the three units are filled, at one more than the ask.
abbrev prices : List PaperFill → List (ℕ × ℕ)
prices [] = []
prices (f ∷ fs) = (f.quantity, f.execution_price) ∷ prices fs

third_filled : prices (third_call.0).match_result.fills ≡ (2, 49) ∷ []
unfolding third_call second_call first_call
third_filled = refl

first-Calls : Calls broker start first_call.1
first-Calls = Calls.and_then Calls.none_yet (Call.submits intent _ first_call.2)

later-Calls : Calls broker first_call.1 third_call.1
later-Calls =
    Calls.and_then
      (Calls.and_then Calls.none_yet (Call.processes metadata (decision 0) _ second_call.2))
      (Call.processes quote (decision 1) _ third_call.2)

Calls-Allowed_example : Allowed broker first_call.1 third_call.1
Calls-Allowed_example = Calls-Allowed later-Calls

Calls-IsJournalled_example : IsJournalled (core first_call.1)
Calls-IsJournalled_example = Calls-IsJournalled broker none first-Calls

Calls-IsSound_example : IsSound broker (core first_call.1)
Calls-IsSound_example = Calls-IsSound broker none first-Calls

there : get (first_call.1).orders (first_call.0).paper_order_id ≡ some first_call.0
unfolding first_call initial twist name_number order_name event_id fill_id get put
there = refl

Calls-IsContinued_example :
    IsContinued (third_call.1).orders (first_call.0).paper_order_id first_call.0
Calls-IsContinued_example =
    Calls-IsContinued broker none (broker-IsSeparated _) first-Calls later-Calls
      (first_call.0).paper_order_id first_call.0 there

submit_idempotent_example :
    (n : ℕ) × (q : PaperOrder) × (submit broker third_call.1 intent
      ≡ ok (OrderCommandResult.of_order q, third_call.1))
    × (get (third_call.1).orders (first_call.0).paper_order_id ≡ some q)
    × Life 34 n first_call.0 q
submit_idempotent_example =
    submit_idempotent broker none intent first_call.0 (broker-IsSeparated _) Calls.none_yet
      first_call.2 later-Calls

batch_redelivered_example :
    process_decision_batch broker third_call.1 quote (decision 1)
    ≡ ok (duplicate_result broker third_call.1 quote (decision 1), third_call.1)
batch_redelivered_example =
    batch_redelivered broker second_call.1 third_call.1 quote (decision 1) third_call.0 third_call.2

Calls-IsLimited_example : IsLimited broker first_call.1
Calls-IsLimited_example = Calls-IsLimited broker none first-Calls

get_order-submit_example : get_order first_call.1 (first_call.0).paper_order_id ≡ some first_call.0
get_order-submit_example =
    get_order-submit broker none intent first_call.0 Calls.none_yet first_call.2
