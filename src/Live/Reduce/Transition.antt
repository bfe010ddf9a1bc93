-- ===== src/Live/Reduce/Transition.antt =====
-- `_broker_transition`: where a broker order event takes an order, if anywhere.
use tx_trader.Common.{
  ℕ, Bool, true, false, ◌&&◌, ◌||◌, not, Option, none, some, ltb, ◌==◌, is_some, is_none,
  if◌then◌else◌,
}
use tx_trader.Decimals.{sub, default_prec}
use tx_trader.Live.Contracts.{
  LiveOrderState, LiveCommandKind, BrokerOrderEventType, PendingCommandBinding, is_terminal,
  command_kind,
}
use tx_trader.Live.Events.{NormalizedBrokerOrderEvent, matches_working_change}
use tx_trader.Live.Order.{LiveOrder, is_cancel_command, is_cancel_pending}
use tx_trader.Live.Local.{is_working, is_operation, replaced}

pub record Transition : Type 0 where
  pub state : LiveOrderState
  pub total_quantity : ℕ
  pub limit_price : Option ℕ
  pub pending : Option PendingCommandBinding

-- The state of an open order with this much filled.
abbrev pub open_state : ℕ → LiveOrderState
open_state filled =
    if ltb 0 filled then LiveOrderState.partially_filled else LiveOrderState.accepted

-- A transition that leaves the total and the limit price as they are.
abbrev pub kept : LiveOrder → LiveOrderState → Option PendingCommandBinding → Transition
kept o state pending = record {
  state = state;
  total_quantity = o.total_quantity;
  limit_price = o.working_limit_price;
  pending = pending;
}

abbrev pub to_state : LiveOrder → LiveOrderState → Option PendingCommandBinding → Option Transition
to_state o state pending = some (kept o state pending)

abbrev pub holds_cancel : Option PendingCommandBinding → Bool
holds_cancel none = false
holds_cancel (some b) = is_cancel_command b.command

abbrev pub holds_operation : Option PendingCommandBinding → Bool
holds_operation none = false
holds_operation (some b) = is_operation (command_kind b.command)

-- The state after an outcome that stays unknown, by the kind of the bound command.
abbrev pub unknown_state : LiveCommandKind → LiveOrderState
unknown_state LiveCommandKind.new = LiveOrderState.submission_unknown
unknown_state _ = LiveOrderState.reconciling

abbrev pub is_open_or_cancelling : LiveOrderState → Bool
is_open_or_cancelling state = is_working state || is_cancel_pending state

-- `REJECTED` or `FILLED`.
abbrev pub is_closed_for_fills : LiveOrderState → Bool
is_closed_for_fills LiveOrderState.rejected = true
is_closed_for_fills LiveOrderState.filled = true
is_closed_for_fills _ = false

-- The total after a decrease; a decrease of more than the total leaves a negative one.
unfoldable pub new_total : ℕ → Option ℕ → Option ℕ
new_total total none = some total
new_total total (some dec) = if ltb total dec then none else some (sub default_prec total dec)

-- The end of a working change, once the new total is known.
unfoldable pub settle : LiveOrder → Option ℕ → Option ℕ → Option Transition
settle o price none = none
settle o price (some total) =
    if ltb total o.filled_quantity || ltb o.total_quantity total
    then none
    else some (record {
      state =
          if total == o.filled_quantity
          then LiveOrderState.filled
          else open_state o.filled_quantity;
      total_quantity = total;
      limit_price = replaced price o.working_limit_price;
      pending = none;
    })

unfoldable pub working_change :
    LiveOrder → NormalizedBrokerOrderEvent → Option PendingCommandBinding → Option Transition
working_change o e none = none
working_change o e (some b) =
    if not (
      matches_working_change b.command e.event_type e.new_limit_price e.decreased_quantity
        o.total_quantity)
    then none
    else if is_some e.new_limit_price && is_none o.working_limit_price
    then none
    else settle o e.new_limit_price (new_total o.total_quantity e.decreased_quantity)

unfoldable pub outcome_unknown : LiveOrder → Option PendingCommandBinding → Option Transition
outcome_unknown o none = none
outcome_unknown o (some b) = to_state o (unknown_state (command_kind b.command)) (some b)

-- The branches by event type, for an order that is not terminal.
unfoldable pub transition_by :
    LiveOrder → NormalizedBrokerOrderEvent → BrokerOrderEventType → Option Transition
transition_by o e BrokerOrderEventType.new_accepted =
    if is_some o.accepted_at
    then to_state o o.state o.pending_command
    else to_state o (open_state o.filled_quantity) none
transition_by o e BrokerOrderEventType.new_rejected =
    if ltb 0 o.filled_quantity || is_some o.accepted_at
    then none
    else to_state o LiveOrderState.rejected none
transition_by o e BrokerOrderEventType.cancel_pending =
    if holds_cancel o.pending_command && is_cancel_pending o.state
    then to_state o o.state o.pending_command
    else none
transition_by o e BrokerOrderEventType.cancelled =
    if o.remaining_quantity == 0 || is_closed_for_fills o.state
    then none
    else to_state o LiveOrderState.cancelled none
transition_by o e BrokerOrderEventType.dynamic_cancelled =
    if o.remaining_quantity == 0 || is_closed_for_fills o.state
    then none
    else if is_open_or_cancelling o.state
    then to_state o LiveOrderState.cancelled none
    else none
transition_by o e BrokerOrderEventType.cancel_rejected =
    if holds_cancel o.pending_command then to_state o (open_state o.filled_quantity) none else none
transition_by o e BrokerOrderEventType.amend_rejected =
    if holds_operation o.pending_command
    then to_state o (open_state o.filled_quantity) none
    else none
transition_by o e BrokerOrderEventType.outcome_unknown = outcome_unknown o o.pending_command
transition_by o e BrokerOrderEventType.price_amended = working_change o e o.pending_command
transition_by o e BrokerOrderEventType.quantity_decreased = working_change o e o.pending_command
transition_by o e BrokerOrderEventType.price_and_quantity_amended =
    working_change o e o.pending_command

unfoldable pub broker_transition : LiveOrder → NormalizedBrokerOrderEvent → Option Transition
broker_transition o e = if is_terminal o.state then none else transition_by o e e.event_type
