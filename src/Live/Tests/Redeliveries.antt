-- ===== src/Live/Tests/Redeliveries.antt =====
-- Evidence for the order under test that is delivered twice.
use tx_trader.Common.{ℕ, ◌≡◌, refl, none, some, [], ◌∷◌, ok, arith, if◌then◌else◌, ◌==◌}
use tx_trader.Decimals.{quantum, half_even, round_at, round_to, add, sub, mul, div, in_bounds}
use tx_trader.Live.Contracts.{
  side_eq, type_eq, tif_eq, BrokerOrderEventType, intent_eq, check_amount, check_positive,
  check_optional, check_price, LiveCommand, check_command, LiveFailureCode,
}
use tx_trader.Live.Events.{matches_working_change, NormalizedBrokerOrderEvent}
use tx_trader.Live.Order.{
  LiveOrder, check_amounts, check_quantities, check_times, check_target, check_pending,
  check_binding_state, check_progress, post_init,
}
use tx_trader.Live.Local.{changed, snapshot, require_binding}
use tx_trader.Live.Ledger.{
  Source, source_eq, ReductionDisposition, ReductionResult, find, append, deduplicate, record_event,
}
use tx_trader.Live.Reduce.Shared.{unchanged, is_confirmed_for}
use tx_trader.Live.Reduce.Transition.{
  broker_transition, transition_by, working_change, settle, new_total,
}
use tx_trader.Live.Reduce.OrderEvent.{
  transition_changes, apply_transition, order_event_known, reduce_broker_order_event,
}
use tx_trader.Live.Reduce.FillEvent.{
  average_after, fill_changes, fill_record, apply_fill, fill_event_known, reduce_broker_fill_event,
}
use tx_trader.Live.Tests.{grid, accepted, partly_filled, event, fill_event, digest}
use tx_trader.Live.Redelivery.{
  deduplicate-record_event, order_event_redelivered, order_event_conflict, fill_event_redelivered,
}

abbrev priced : ℕ → NormalizedBrokerOrderEvent
priced price = record (event 71 BrokerOrderEventType.price_amended) { new_limit_price = some price }

-- An AMEND to 51.00 is bound.
abbrev amending : LiveOrder
amending = record accepted {
  pending_command =
      some (record { command = LiveCommand.amend_order 14 2 5100 35; payload_fingerprint = 10 });
  version = 5;
  updated_at = 35;
}

abbrev amended : ReductionResult
amended = record {
  order = record amending { pending_command = none; working_limit_price = some 5100; version = 6 };
  ledger = record { source = Source.broker_event; event_id = 71; fingerprint = 5171 } ∷ [];
  disposition = ReductionDisposition.applied;
  fill = none;
  failure_code = none;
}

amend_applied : reduce_broker_order_event grid digest amending (priced 5100) [] ≡ ok amended
unfolding check_positive check_optional check_price check_amount in_bounds round_to round_at quantum
    half_even check_times check_pending check_target check_binding_state check_progress add sub
    snapshot changed post_init check_amounts check_quantities intent_eq side_eq type_eq tif_eq
    require_binding check_command deduplicate find source_eq record_event append is_confirmed_for
    reduce_broker_order_event order_event_known broker_transition transition_by apply_transition
    transition_changes working_change settle new_total matches_working_change
amend_applied = refl

order_event_redelivered_example :
    reduce_broker_order_event grid digest amended.order (priced 5100) amended.ledger
    ≡ ok (unchanged amended.order amended.ledger ReductionDisposition.exact_duplicate none)
order_event_redelivered_example =
    order_event_redelivered grid digest amending amended.order (priced 5100) (priced 5100) []
      amend_applied refl refl

order_event_conflict_example :
    reduce_broker_order_event grid digest amended.order (priced 5200) amended.ledger
    ≡ ok (
        unchanged amended.order amended.ledger ReductionDisposition.event_conflict
          (some LiveFailureCode.correlation_conflict))
order_event_conflict_example =
    order_event_conflict grid digest amending amended.order (priced 5100) (priced 5200) []
      amend_applied refl refl (omega arith)

first_fill :
    (r : ReductionResult) × (reduce_broker_fill_event grid digest accepted (fill_event 61 100) []
      ≡ ok r)
    × (partly_filled ≡ r.order)
    × (r.disposition ≡ ReductionDisposition.applied)
unfolding check_positive check_optional check_price check_amount in_bounds round_to round_at quantum
    half_even check_times check_pending check_target check_binding_state check_progress add sub
    snapshot changed post_init check_amounts check_quantities intent_eq side_eq type_eq tif_eq
    require_binding check_command deduplicate find source_eq record_event append is_confirmed_for
    reduce_broker_fill_event fill_event_known apply_fill fill_changes fill_record average_after mul
    div
first_fill = (_, refl, refl, refl)

fill_event_redelivered_example :
    reduce_broker_fill_event grid digest partly_filled (fill_event 61 100) first_fill.0.ledger
    ≡ ok (unchanged partly_filled first_fill.0.ledger ReductionDisposition.exact_duplicate none)
fill_event_redelivered_example =
    fill_event_redelivered grid digest accepted partly_filled (fill_event 61 100)
      (fill_event 61 100) [] first_fill.1 first_fill.3 refl

nothing_known : deduplicate [] Source.dispatch 11 7 ≡ none
unfolding deduplicate find
nothing_known = refl

deduplicate-record_event_example :
    deduplicate (record_event [] Source.dispatch 11 7) Source.dispatch 11 9
    ≡ some (
        if 7 == 9
        then ReductionDisposition.exact_duplicate
        else ReductionDisposition.event_conflict)
deduplicate-record_event_example = deduplicate-record_event [] Source.dispatch 11 7 9 nothing_known
