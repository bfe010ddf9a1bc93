-- ===== src/Live/Reduce/TransitionValid.antt =====
-- Every transition that `_broker_transition` gives fits the order.
use tx_trader.Common.{
  IfSome, IfSome-if, ℕ, ◌<◌, ◌≡◌, refl, Bool, false, Option, none, ok, arith, is_some, ltb, ◌==◌,
  ◌&&◌, ◌||◌, differ,
}
use tx_trader.Decimals.{Grid}
use tx_trader.Live.Contracts.{
  LiveOrderState, BrokerOrderEventType, PendingCommandBinding, is_terminal, check_optional,
}
use tx_trader.Live.Events.{NormalizedBrokerOrderEvent, is_quantity_change}
use tx_trader.Live.Order.{LiveOrder, is_cancel_pending}
use tx_trader.Live.Valid.{IsValid}
use tx_trader.Live.Reduce.Transition.{
  open_state, kept, holds_cancel, holds_operation, is_open_or_cancelling, is_closed_for_fills,
  working_change, transition_by, broker_transition,
}
use tx_trader.Live.Reduce.TransitionFits.{
  Fits, unbound-Fits, same-Fits, open-Fits, rejected_facts, cancelled-Fits, outcome_unknown-Fits,
}
use tx_trader.Live.Reduce.WorkingChangeFits.{AllOn, working_change-Fits}

module _ (g : Grid) (k : ℕ) (o : LiveOrder) (v : IsValid g k o)
    (rest : 0 < o.remaining_quantity) where
  stays : Fits g k o (kept o o.state o.pending_command)
  stays = same-Fits g k o v

  opens : Fits g k o (kept o (open_state o.filled_quantity) none)
  opens = open-Fits g k o v rest

  cancels : Fits g k o (kept o LiveOrderState.cancelled none)
  cancels = cancelled-Fits g k o v rest

  rejects :
      (b : Bool)
      → (ltb 0 o.filled_quantity || b) ≡ false
      → Fits g k o (kept o LiveOrderState.rejected none)
  rejects b h =
      let (fits, progressed) =
        rejected_facts o.total_quantity o.filled_quantity o.remaining_quantity (ground arith) in
      unbound-Fits g k o LiveOrderState.rejected v fits progressed (λ _. rest)

  transition_by-Fits :
      (e : NormalizedBrokerOrderEvent) (ty : BrokerOrderEventType)
      → ((p : Option PendingCommandBinding)
          → o.pending_command ≡ p
          → IfSome (Fits g k o) (working_change o e p))
      → IfSome (Fits g k o) (transition_by o e ty)
  unfolding transition_by
  transition_by-Fits e BrokerOrderEventType.new_accepted change =
      IfSome-if (Fits g k o) (is_some o.accepted_at) _ _ (λ _. stays) (λ _. opens)
  transition_by-Fits e BrokerOrderEventType.new_rejected change =
      IfSome-if (Fits g k o) (ltb 0 o.filled_quantity || is_some o.accepted_at) none _ (λ _. tt)
        (rejects (is_some o.accepted_at))
  transition_by-Fits e BrokerOrderEventType.cancel_pending change =
      IfSome-if (Fits g k o) (holds_cancel o.pending_command && is_cancel_pending o.state) _ none
        (λ _. stays) (λ _. tt)
  transition_by-Fits e BrokerOrderEventType.cancelled change =
      IfSome-if (Fits g k o) (o.remaining_quantity == 0 || is_closed_for_fills o.state) none _
        (λ _. tt) (λ _. cancels)
  transition_by-Fits e BrokerOrderEventType.dynamic_cancelled change =
      IfSome-if (Fits g k o) (o.remaining_quantity == 0 || is_closed_for_fills o.state) none _
        (λ _. tt)
        λ _. IfSome-if (Fits g k o) (is_open_or_cancelling o.state) _ none (λ _. cancels) (λ _. tt)
  transition_by-Fits e BrokerOrderEventType.cancel_rejected change =
      IfSome-if (Fits g k o) (holds_cancel o.pending_command) _ none (λ _. opens) (λ _. tt)
  transition_by-Fits e BrokerOrderEventType.amend_rejected change =
      IfSome-if (Fits g k o) (holds_operation o.pending_command) _ none (λ _. opens) (λ _. tt)
  transition_by-Fits e BrokerOrderEventType.outcome_unknown change =
      outcome_unknown-Fits g k o o.pending_command v rest refl
  transition_by-Fits e BrokerOrderEventType.price_amended change = change o.pending_command refl
  transition_by-Fits e BrokerOrderEventType.quantity_decreased change =
      change o.pending_command refl
  transition_by-Fits e BrokerOrderEventType.price_and_quantity_amended change =
      change o.pending_command refl

-- Where an event takes a valid order, for an event whose price is admissible, whose decrease lies
-- on the lot and is there exactly for a quantity change: the new total lies between what is filled
-- and the old total, and the state, the price and the binding fit it.
pub broker_transition-Fits :
    (g : Grid) (k : ℕ) (o : LiveOrder) (e : NormalizedBrokerOrderEvent)
    → IsValid g k o
    → check_optional g e.new_limit_price ≡ ok tt
    → differ (is_quantity_change e.event_type) (is_some e.decreased_quantity) ≡ false
    → AllOn k e.decreased_quantity
    → IfSome (Fits g k o) (broker_transition o e)
unfolding broker_transition
broker_transition-Fits g k o e v good shape on =
    IfSome-if (Fits g k o) (is_terminal o.state) none _ (λ _. tt)
      λ open_order.
        transition_by-Fits g k o v (v.rest_open open_order) e e.event_type
          (λ p bound. working_change-Fits g k o e p v good shape on bound)
