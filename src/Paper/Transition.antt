-- ===== src/Paper/Transition.antt =====
-- tx_trade/orders/state_machine.py: which snapshots of a paper order may follow one another.
use tx_trader.Common.{Bool, true, false, ◌&&◌, not, Outcome, ◌>>◌, raise_if, ltb, leb, ◌==◌, same}
use tx_trader.Paper.Contracts.{OrderStatus, PaperFault, PaperOrder, order_intent_eq}

-- `_ALLOWED_TRANSITIONS`.
unfoldable pub can_transition : OrderStatus → OrderStatus → Bool
can_transition OrderStatus.accepted OrderStatus.partially_filled = true
can_transition OrderStatus.accepted OrderStatus.filled = true
can_transition OrderStatus.accepted OrderStatus.cancelled = true
can_transition OrderStatus.partially_filled OrderStatus.partially_filled = true
can_transition OrderStatus.partially_filled OrderStatus.filled = true
can_transition OrderStatus.partially_filled OrderStatus.cancelled = true
can_transition _ _ = false

abbrev pub is_partial : OrderStatus → Bool
is_partial OrderStatus.partially_filled = true
is_partial _ = false

abbrev pub is_cancelled_status : OrderStatus → Bool
is_cancelled_status OrderStatus.cancelled = true
is_cancelled_status _ = false

unfoldable pub check_identity : PaperOrder → PaperOrder → Outcome PaperFault (Unit {0})
check_identity previous current = do
  raise_if (not (previous.paper_run_id == current.paper_run_id)) PaperFault.run_changed
  raise_if (not (previous.paper_order_id == current.paper_order_id)) PaperFault.order_changed
  raise_if (not (order_intent_eq previous.intent current.intent)) PaperFault.intent_changed
  raise_if (not (same previous.accepted_at current.accepted_at)) PaperFault.accepted_at_changed

unfoldable pub check_fills : PaperOrder → PaperOrder → Outcome PaperFault (Unit {0})
check_fills previous current = do
  raise_if (ltb current.filled_quantity previous.filled_quantity) PaperFault.filled_decreased
  raise_if (ltb previous.remaining_quantity current.remaining_quantity)
      PaperFault.remaining_increased
  raise_if
      (current.filled_quantity == previous.filled_quantity
        && not (same current.average_fill_price previous.average_fill_price))
      PaperFault.average_changed
  raise_if (is_partial current.status && leb current.filled_quantity previous.filled_quantity)
      PaperFault.nothing_filled
  raise_if
      (is_cancelled_status current.status
        && not (current.filled_quantity == previous.filled_quantity))
      PaperFault.filled_on_cancel

unfoldable pub validate_order_transition : PaperOrder → PaperOrder → Outcome PaperFault (Unit {0})
validate_order_transition previous current = do
  check_identity previous current
  raise_if (not (can_transition previous.status current.status)) PaperFault.not_allowed
  raise_if (ltb current.updated_at previous.updated_at) PaperFault.time_backwards
  check_fills previous current
