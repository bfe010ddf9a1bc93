-- ===== src/Live/Reduce/Safety.antt =====
-- What no evidence can do: a closed order is not reopened, and a fill never exceeds what is left.
use tx_trader.Common.{
  ℕ, ◌<◌, ◌≡◌, ◌⊎◌, arith, inl, inr, refl, Bool-cases, true, false, ◌&&◌, ◌||◌, not, Option, none,
  some, ltb, Returns, Returns-if, sym,
}
use tx_trader.Decimals.{Grid}
use tx_trader.Live.Contracts.{
  LiveOrderState, LiveCommand, BrokerOrderEventType, PendingCommandBinding, is_terminal, side_eq,
}
use tx_trader.Live.Events.{
  NormalizedBrokerOrderEvent, NormalizedBrokerFillEvent, Evidence, order_payload, fill_payload,
  matches_working_change,
}
use tx_trader.Live.Order.{LiveOrder}
use mathlib.Core.Path.{subst}
use tx_trader.Live.Ledger.{Source, AppliedEventLedger, ReductionDisposition, deduplicate}
use tx_trader.Live.Reduce.Transition.{
  broker_transition, working_change, transition_by, is_closed_for_fills,
}
use tx_trader.Live.Reduce.Shared.{is_confirmed_for}
use tx_trader.Live.Reduce.OrderEvent.{
  apply_transition, order_event_known, reduce_broker_order_event, is_cancelled, is_cancellation,
}
use tx_trader.Live.Reduce.FillEvent.{fill_event_known, reduce_broker_fill_event}

-- A terminal order has no transition.
broker_transition-terminal :
    (o : LiveOrder) (e : NormalizedBrokerOrderEvent)
    → is_terminal o.state ≡ true
    → broker_transition o e ≡ none
unfolding broker_transition
broker_transition-terminal o e h = rw h

-- Without a transition the order stays as it is.
order_event_known-none :
    (g : Grid) (o : LiveOrder) (e : NormalizedBrokerOrderEvent) (l : AppliedEventLedger) (fp : ℕ)
    (d : Option ReductionDisposition)
    → broker_transition o e ≡ none
    → Returns (order_event_known g o e l fp d) (λ r. r.order ≡ o)
unfolding order_event_known apply_transition
order_event_known-none g o e l fp (some d) h = refl
order_event_known-none g o e l fp none h =
    Returns-if (λ r. r.order ≡ o)
      (not (is_confirmed_for o e.correlation e.account_id e.instrument_id)) _ _ (λ _. refl)
      λ _.
        Returns-if (λ r. r.order ≡ o) (is_cancelled o.state && is_cancellation e.event_type) _ _
          (λ _. refl) (λ _. rw h refl)

reduce_broker_order_event-none :
    (g : Grid) (digest : Evidence → ℕ) (o : LiveOrder) (e : NormalizedBrokerOrderEvent)
    (l : AppliedEventLedger)
    → broker_transition o e ≡ none
    → Returns (reduce_broker_order_event g digest o e l) (λ r. r.order ≡ o)
unfolding reduce_broker_order_event
reduce_broker_order_event-none g digest o e l h =
    order_event_known-none g o e l (digest (order_payload e))
      (deduplicate l Source.broker_event e.event_id (digest (order_payload e))) h

-- The states that `is_terminal` and `is_closed_for_fills` find.
over_is_terminal :
    (s : LiveOrderState)
    → ((s ≡ LiveOrderState.filled)
        ⊎ ((s ≡ LiveOrderState.rejected) ⊎ (s ≡ LiveOrderState.cancelled)))
    → is_terminal s ≡ true
over_is_terminal s (inl h) = rw h refl
over_is_terminal s (inr (inl h)) = rw h refl
over_is_terminal s (inr (inr h)) = rw h refl

refuses_fill :
    (s : LiveOrderState) (remaining quantity : ℕ)
    → ((s ≡ LiveOrderState.filled) ⊎ ((s ≡ LiveOrderState.rejected) ⊎ (remaining < quantity)))
    → (is_closed_for_fills s || ltb remaining quantity) ≡ true
refuses_fill s remaining quantity (inl h) = rw h refl
refuses_fill s remaining quantity (inr (inl h)) = rw h refl
refuses_fill s remaining quantity (inr (inr h)) = ground (arith, h)

-- An order that is filled, rejected or cancelled is immutable under broker order events: whatever
-- the event, the reducer returns, and returns the order as it is.
pub terminal_immutable :
    (g : Grid) (digest : Evidence → ℕ) (o : LiveOrder) (e : NormalizedBrokerOrderEvent)
    (l : AppliedEventLedger)
    → ((o.state ≡ LiveOrderState.filled)
        ⊎ ((o.state ≡ LiveOrderState.rejected) ⊎ (o.state ≡ LiveOrderState.cancelled)))
    → Returns (reduce_broker_order_event g digest o e l) (λ r. r.order ≡ o)
terminal_immutable g digest o e l h =
    reduce_broker_order_event-none g digest o e l
      (broker_transition-terminal o e (over_is_terminal o.state h))

fill_event_known-closed :
    (g : Grid) (o : LiveOrder) (e : NormalizedBrokerFillEvent) (l : AppliedEventLedger) (fp : ℕ)
    (d : Option ReductionDisposition)
    → (is_closed_for_fills o.state || ltb o.remaining_quantity e.quantity) ≡ true
    → Returns
        (fill_event_known g o e l fp d)
        (λ r. (r.order ≡ o) × (r.fill ≡ none) × (r.ledger ≡ l))
unfolding fill_event_known
fill_event_known-closed g o e l fp (some d) h = (refl, refl, refl)
fill_event_known-closed g o e l fp none h =
    Returns-if (λ r. (r.order ≡ o) × (r.fill ≡ none) × (r.ledger ≡ l))
      (not (is_confirmed_for o e.correlation e.account_id e.instrument_id)
        || not (side_eq e.side o.intent.side))
      _ _ (λ _. (refl, refl, refl)) (λ _. rw h (refl, refl, refl))

-- A fill of a filled or rejected order, or of more than remains, changes nothing: the reducer
-- returns, books no fill, and leaves the order and the ledger as they are.
pub overfill_refused :
    (g : Grid) (digest : Evidence → ℕ) (o : LiveOrder) (e : NormalizedBrokerFillEvent)
    (l : AppliedEventLedger)
    → ((o.state ≡ LiveOrderState.filled)
        ⊎ ((o.state ≡ LiveOrderState.rejected) ⊎ (o.remaining_quantity < e.quantity)))
    → Returns
        (reduce_broker_fill_event g digest o e l)
        (λ r. (r.order ≡ o) × (r.fill ≡ none) × (r.ledger ≡ l))
unfolding reduce_broker_fill_event
overfill_refused g digest o e l h =
    fill_event_known-closed g o e l (digest (fill_payload e))
      (deduplicate l Source.broker_event e.event_id (digest (fill_payload e)))
      (refuses_fill o.state o.remaining_quantity e.quantity h)

-- No bound command asks for a change of price and quantity at once.
matches_working_change-both :
    (c : LiveCommand) (p d : Option ℕ) (total : ℕ)
    → matches_working_change c BrokerOrderEventType.price_and_quantity_amended p d total ≡ false
unfolding matches_working_change
matches_working_change-both (LiveCommand.new_order c i t) p d total = refl
matches_working_change-both (LiveCommand.cancel_order c o t) p d total = refl
matches_working_change-both (LiveCommand.amend_order c o n t) p d total = refl
matches_working_change-both (LiveCommand.decrease_order c o x n t) p d total = refl

working_change-both :
    (o : LiveOrder) (e : NormalizedBrokerOrderEvent) (p : Option PendingCommandBinding)
    → e.event_type ≡ BrokerOrderEventType.price_and_quantity_amended
    → working_change o e p ≡ none
unfolding working_change
working_change-both o e none h = refl
working_change-both o e (some b) h = rw h (
    rw (
      matches_working_change-both b.command e.new_limit_price e.decreased_quantity
        o.total_quantity))

transition_by-both :
    (o : LiveOrder) (e : NormalizedBrokerOrderEvent)
    → e.event_type ≡ BrokerOrderEventType.price_and_quantity_amended
    → transition_by o e e.event_type ≡ none
unfolding transition_by
transition_by-both o e h =
    subst (λ ty. transition_by o e ty ≡ none) (sym h) (working_change-both o e o.pending_command h)

broker_transition-both :
    (o : LiveOrder) (e : NormalizedBrokerOrderEvent)
    → e.event_type ≡ BrokerOrderEventType.price_and_quantity_amended
    → broker_transition o e ≡ none
unfolding broker_transition
broker_transition-both o e h = elim (Bool-cases (is_terminal o.state)) [
  | inl closed ↦ rw closed
  | inr free ↦ rw free (transition_by-both o e h)
]

-- An event that amends the price and the quantity together never changes an order, whatever
-- command it has bound: the reducer returns the order as it is.
pub joint_change_refused :
    (g : Grid) (digest : Evidence → ℕ) (o : LiveOrder) (e : NormalizedBrokerOrderEvent)
    (l : AppliedEventLedger)
    → e.event_type ≡ BrokerOrderEventType.price_and_quantity_amended
    → Returns (reduce_broker_order_event g digest o e l) (λ r. r.order ≡ o)
joint_change_refused g digest o e l h =
    reduce_broker_order_event-none g digest o e l (broker_transition-both o e h)
