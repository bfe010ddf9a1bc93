-- ===== src/Paper/Tests/Fills.antt =====
-- The broker's matching of a quote that offers two units, and the fill it builds.
use tx_trader.Common.{
  ℕ, ◌≡◌, refl, none, some, ok, List, [], ◌∷◌, pos, arith, get, put, Dict, Option, eq_nat, eq_pair,
  eq_triple, ◌+ℤ◌,
}
use tx_trader.Decimals.{add, sub, mul, div, round_to, round_at, quantum, half_even}
use tx_trader.Paper.Contracts.{
  OrderSide, check_status, check_accepted, check_paper_order, order_side_eq, order_type_eq,
  order_intent_eq,
}
use tx_trader.Paper.Transition.{
  can_transition, check_identity, check_fills, validate_order_transition,
}
use tx_trader.Paper.Position.{
  check_paper_fill, check_paper_position, check_continuation, new_average, weighted_with, booked,
  book, apply_fill_to_position,
}
use tx_trader.Paper.Matching.{QuoteTop, execution_price_at, execution_price}
use tx_trader.Paper.Policies.{
  slippage_delta, moved, gap, is_favourable, accept_slippage, assess_slippage, within_limit,
  assess_limit, assess_fee,
}
use tx_trader.Paper.Events.{carries, same_cause, check_event}
use tx_trader.Paper.Broker.State.{initial}
use tx_trader.Paper.Broker.Commands.{make_event}
use tx_trader.Paper.Broker.Batch.{Batch, is_ineligible, weighted_average, matched_average}
use tx_trader.Paper.Broker.Fills.{update_order, stage_fill, book_fill}
use tx_trader.Paper.Broker.Matches.{
  fill_charged, fill_limited, fill_priced, fill_available, fill_crossed, match_order, match_found,
  stage_matches,
}
use tx_trader.Paper.Broker.Results.{
  every, has_reason, has_no_duplicates, check_match_result, increases, check_batch_result,
}
use tx_trader.Paper.Broker.Envelopes.{
  empty_batch, fence_by, validate_envelope_fence, check_metadata, process_payload,
}
use tx_trader.Paper.Broker.Process.{
  stage_commands, exceeds, unique_from, drop, returned, process_commands, process_new,
  process_fenced, process_decision_batch,
}
use tx_trader.Paper.Broker.Sides.{taken, left_on, FitsDigits, Conserves}
use tx_trader.Paper.Broker.Liquidity.{stage_matches-Conserves}
use tx_trader.Paper.Equality.{paper_event_eq, starts_with}
use tx_trader.Paper.Broker.Names.{order_name, event_id, fill_id}
use tx_trader.Paper.Tests.Brokers.{broker, quote, twist, name_number, first_call, second_call}

abbrev top : QuoteTop
top = record {
  bid = pos 47;
  ask = pos 48;
  bid_capacity = some 5;
  ask_capacity = some 2;
  currency = none;
  skip_reasons = [];
}

abbrev offered : Batch
offered = empty_batch second_call.1 [] (record { of_buy = some 2; of_sell = some 5 })

abbrev ordered_ids : List (ℕ × ℕ)
ordered_ids = ((first_call.0).paper_order_id, 1) ∷ []

abbrev from_start : Dict ℕ (Option ℕ)
from_start = ((first_call.0).paper_order_id, none) ∷ []

matched : (u : Batch) × (stage_matches broker quote 4 top from_start ordered_ids offered ≡ ok u)
unfolding initial name_number order_name event_id fill_id twist get put stage_matches match_found
    match_order is_ineligible fill_crossed execution_price execution_price_at fill_available
    fill_priced assess_slippage slippage_delta moved accept_slippage gap is_favourable fill_limited
    assess_limit within_limit fill_charged assess_fee check_paper_fill update_order weighted_average
    matched_average check_paper_order check_status check_accepted validate_order_transition
    check_identity order_intent_eq order_side_eq order_type_eq can_transition check_fills book_fill
    apply_fill_to_position check_continuation book booked new_average weighted_with
    check_paper_position ◌+ℤ◌ stage_fill make_event check_event carries same_cause add sub mul div
    round_to round_at quantum half_even first_call second_call process_decision_batch
    validate_envelope_fence fence_by process_fenced process_new process_payload check_metadata
    process_commands exceeds stage_commands returned unique_from drop check_match_result every
    has_reason has_no_duplicates starts_with paper_event_eq check_batch_result increases
matched = (_, refl)

offered_fits : FitsDigits (offered).capacities
offered_fits OrderSide.buy = omega arith
offered_fits OrderSide.sell = omega arith

stage_matches-Conserves_example : Conserves offered matched.0
stage_matches-Conserves_example =
    stage_matches-Conserves broker quote 4 top from_start ordered_ids offered matched.0 offered_fits
      matched.1

-- The two units of the quote are taken.
nothing_left :
    (taken OrderSide.buy (matched.0).result_fills ≡ 2)
    × (left_on OrderSide.buy (matched.0).capacities ≡ 0)
unfolding taken matched second_call first_call order_side_eq
nothing_left = (refl, refl)
