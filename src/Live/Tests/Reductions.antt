-- ===== src/Live/Tests/Reductions.antt =====
-- Evidence that is reduced for the order under test, on its way from creation to a full fill.
use tx_trader.Common.{inl, inr, arith, ◌≡◌, refl, none, some, [], ◌∷◌, ok, Returns, IfSome}
use tx_trader.Decimals.{quantum, half_even, round_at, round_to, add, sub, mul, div, in_bounds}
use tx_trader.Live.Contracts.{
  side_eq, type_eq, tif_eq, LiveOrderState, BrokerOrderEventType, intent_eq, check_amount,
  check_positive, check_optional, check_price, check_command,
}
use tx_trader.Live.Events.{check_sequences, check_shape, check_order_event, check_fill_event}
use tx_trader.Live.Order.{
  check_amounts, check_quantities, check_times, check_target, check_pending, check_binding_state,
  check_progress, post_init,
}
use tx_trader.Live.Local.{fresh, changed, snapshot, require_binding, advance, advance_local}
use tx_trader.Live.Ledger.{
  Source, source_eq, ReductionDisposition, ReductionResult, find, append, deduplicate, record_event,
}
use tx_trader.Live.Valid.{IsValid}
use tx_trader.Live.Reduce.Shared.{is_confirmed_for}
use tx_trader.Live.Reduce.Transition.{broker_transition, transition_by}
use tx_trader.Live.Reduce.Dispatch.{reduce_dispatch}
use tx_trader.Live.Reduce.OrderEvent.{
  transition_changes, apply_transition, order_event_known, reduce_broker_order_event,
}
use tx_trader.Live.Reduce.FillEvent.{
  average_after, fill_changes, fill_record, apply_fill, fill_event_known, reduce_broker_fill_event,
}
use tx_trader.Live.Tests.{
  grid, grid_fits, intent, intent_good, three_lots, accepted, accepted-IsValid, new_binding,
  validated, submitting, filled, event, fill_event, receipt, digest,
}
use tx_trader.Live.History.{Step, Reach, history-IsValid}
use tx_trader.Live.Reduce.OrderEventValid.{reduce_broker_order_event-IsValid}
use tx_trader.Live.Reduce.FillEventValid.{FillOutcome, reduce_broker_fill_event-FillOutcome}
use tx_trader.Live.Reduce.TransitionFits.{Fits}
use tx_trader.Live.Reduce.TransitionValid.{broker_transition-Fits}
use tx_trader.Live.Reduce.Safety.{terminal_immutable, overfill_refused, joint_change_refused}
use tx_trader.Live.Reduce.Transport.{IsTransportOnly, reduce_dispatch-IsTransportOnly}
use tx_trader.Live.Final.{over_is_final}
use tx_trader.Live.Valid.{check_optional-none}

cancelled_good : check_order_event grid (event 51 BrokerOrderEventType.cancelled) ≡ ok tt
unfolding check_order_event check_sequences check_shape check_optional
cancelled_good = refl

reduce_broker_order_event-IsValid_example :
    Returns
      (reduce_broker_order_event grid digest accepted (event 51 BrokerOrderEventType.cancelled) [])
      (λ r. IsValid grid 2 r.order)
reduce_broker_order_event-IsValid_example =
    reduce_broker_order_event-IsValid grid 2 digest accepted
      (event 51 BrokerOrderEventType.cancelled) [] grid_fits accepted-IsValid cancelled_good tt

fill_good : check_fill_event grid (fill_event 61 300) ≡ ok tt
unfolding check_fill_event check_positive check_amount in_bounds round_to round_at quantum half_even
    check_sequences
fill_good = refl

average_good : check_positive grid (average_after grid accepted (fill_event 61 300)) ≡ ok tt
unfolding average_after add mul div check_positive check_amount in_bounds round_to round_at quantum
    half_even
average_good = refl

reduce_broker_fill_event-FillOutcome_example :
    Returns
      (reduce_broker_fill_event grid digest accepted (fill_event 61 300) [])
      (λ r. FillOutcome grid 2 accepted (fill_event 61 300) r)
reduce_broker_fill_event-FillOutcome_example =
    reduce_broker_fill_event-FillOutcome grid 2 digest accepted (fill_event 61 300) [] grid_fits
      accepted-IsValid fill_good three_lots average_good

broker_transition-Fits_example :
    IfSome
      (Fits grid 2 accepted)
      (broker_transition accepted (event 51 BrokerOrderEventType.cancelled))
broker_transition-Fits_example =
    broker_transition-Fits grid 2 accepted (event 51 BrokerOrderEventType.cancelled)
      accepted-IsValid (check_optional-none grid) refl tt

terminal_immutable_example :
    Returns
      (reduce_broker_order_event grid digest filled (event 51 BrokerOrderEventType.cancelled) [])
      (λ r. r.order ≡ filled)
terminal_immutable_example =
    terminal_immutable grid digest filled (event 51 BrokerOrderEventType.cancelled) [] (inl refl)

overfill_refused_example :
    Returns
      (reduce_broker_fill_event grid digest accepted (fill_event 61 400) [])
      (λ r. (r.order ≡ accepted) × (r.fill ≡ none) × (r.ledger ≡ []))
overfill_refused_example =
    overfill_refused grid digest accepted (fill_event 61 400) [] (inr (inr (omega arith)))

joint_change_refused_example :
    Returns
      (reduce_broker_order_event grid digest accepted
        (event 52 BrokerOrderEventType.price_and_quantity_amended)
        [])
      (λ r. r.order ≡ accepted)
joint_change_refused_example =
    joint_change_refused grid digest accepted
      (event 52 BrokerOrderEventType.price_and_quantity_amended) [] refl

-- The way from creation to a full fill, call by call.
validating : advance_local grid (fresh intent) LiveOrderState.validated 15 none ≡ ok validated
unfolding advance_local advance check_positive check_optional check_price check_amount in_bounds
    round_to round_at quantum half_even check_times check_pending check_target check_binding_state
    check_progress add sub snapshot changed post_init check_amounts check_quantities intent_eq
    side_eq type_eq tif_eq require_binding check_command
validating = refl

new_good : check_command grid new_binding.command ≡ ok tt
unfolding check_command
new_good = refl

sending :
    advance_local grid validated LiveOrderState.submitting 20 (some new_binding) ≡ ok submitting
unfolding advance_local advance check_positive check_optional check_price check_amount in_bounds
    round_to round_at quantum half_even check_times check_pending check_target check_binding_state
    check_progress add sub snapshot changed post_init check_amounts check_quantities intent_eq
    side_eq type_eq tif_eq require_binding check_command
sending = refl

accepted_good : check_order_event grid (event 50 BrokerOrderEventType.new_accepted) ≡ ok tt
unfolding check_order_event check_sequences check_shape check_optional
accepted_good = refl

abbrev accepting_result : ReductionResult
accepting_result = record {
  order = accepted;
  ledger = record { source = Source.broker_event; event_id = 50; fingerprint = 50 } ∷ [];
  disposition = ReductionDisposition.applied;
  fill = none;
  failure_code = none;
}

accepting :
    reduce_broker_order_event grid digest submitting (event 50 BrokerOrderEventType.new_accepted) []
    ≡ ok accepting_result
unfolding check_positive check_optional check_price check_amount in_bounds round_to round_at quantum
    half_even check_times check_pending check_target check_binding_state check_progress add sub
    snapshot changed post_init check_amounts check_quantities intent_eq side_eq type_eq tif_eq
    require_binding check_command deduplicate find source_eq record_event append is_confirmed_for
    reduce_broker_order_event order_event_known broker_transition transition_by apply_transition
    transition_changes
accepting = refl

to_submitting : Reach grid 2 digest (fresh intent) submitting
to_submitting =
    Reach.next {p = validated}
      (Reach.next {p = fresh intent} Reach.here
        (Step.advanced LiveOrderState.validated 15 none refl validating))
      (Step.advanced LiveOrderState.submitting 20 (some new_binding) new_good sending)

to_accepted : Reach grid 2 digest (fresh intent) accepted
to_accepted = Reach.next {p = submitting} to_submitting (
    Step.informed (event 50 BrokerOrderEventType.new_accepted) [] accepting_result accepted_good tt
      accepting refl)

filling_result :
    (r : ReductionResult) × (reduce_broker_fill_event grid digest accepted (fill_event 61 300) []
      ≡ ok r)
    × (filled ≡ r.order)
unfolding check_positive check_optional check_price check_amount in_bounds round_to round_at quantum
    half_even check_times check_pending check_target check_binding_state check_progress add sub
    snapshot changed post_init check_amounts check_quantities intent_eq side_eq type_eq tif_eq
    require_binding check_command deduplicate find source_eq record_event append is_confirmed_for
    reduce_broker_fill_event fill_event_known apply_fill fill_changes fill_record average_after mul
    div
filling_result = (_, refl, refl)

to_filled : Reach grid 2 digest (fresh intent) filled
to_filled = Reach.next {p = accepted} to_accepted (
    Step.executed (fill_event 61 300) [] filling_result.0 fill_good three_lots average_good
      filling_result.1 filling_result.2)

history-IsValid_example : IsValid grid 2 filled
history-IsValid_example =
    history-IsValid grid 2 digest intent grid_fits intent_good three_lots to_filled

-- A cancellation arrives after the fill.
late_result :
    (r : ReductionResult) × (reduce_broker_order_event grid digest filled
        (event 51 BrokerOrderEventType.cancelled)
        []
      ≡ ok r)
    × (filled ≡ r.order)
unfolding reduce_broker_order_event order_event_known deduplicate find source_eq is_confirmed_for
    broker_transition apply_transition
late_result = (_, refl, refl)

over_is_final_example : filled ≡ filled
over_is_final_example =
    over_is_final grid 2 digest intent grid_fits intent_good three_lots to_filled (inl refl) (
      Reach.next {p = filled} Reach.here (
        Step.informed (event 51 BrokerOrderEventType.cancelled) [] late_result.0 cancelled_good tt
          late_result.1 late_result.2))

submitting-IsValid : IsValid grid 2 submitting
submitting-IsValid =
    history-IsValid grid 2 digest intent grid_fits intent_good three_lots to_submitting

reduce_dispatch-IsTransportOnly_example :
    Returns
      (reduce_dispatch grid digest submitting receipt [])
      (λ r. IsValid grid 2 r.order × IsTransportOnly submitting r.order)
reduce_dispatch-IsTransportOnly_example =
    reduce_dispatch-IsTransportOnly grid 2 digest submitting receipt [] grid_fits submitting-IsValid
