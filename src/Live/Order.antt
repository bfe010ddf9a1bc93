-- ===== src/Live/Order.antt =====
-- tx_trade/orders/live_contracts.py: `LiveOrder` and its `__post_init__`, check by check.
use tx_trader.Common.{
  ℕ, Bool, true, false, ◌&&◌, not, Option, none, some, Outcome, ok, raise, ◌>>◌, raise_if, ltb,
  ◌==◌, is_some, is_none, differ, if◌then◌else◌,
}
use tx_trader.Decimals.{Grid, add, default_prec}
use tx_trader.Live.Contracts.{
  LiveOrderState, LiveOrderIntent, LiveCommand, Fault, PendingCommandBinding, intent_eq, bound_at,
  check_amount, check_positive, check_optional, check_price,
}
use tx_trader.Live.Events.{is_after}

pub record LiveOrder : Type 0 where
  pub intent : LiveOrderIntent
  pub state : LiveOrderState
  pub total_quantity : ℕ
  pub filled_quantity : ℕ
  pub remaining_quantity : ℕ
  pub average_fill_price : Option ℕ
  pub working_limit_price : Option ℕ
  pub version : ℕ
  pub updated_at : ℕ
  pub accepted_at : Option ℕ
  pub pending_command : Option PendingCommandBinding

unfoldable pub check_amounts : Grid → LiveOrder → Outcome Fault (Unit {0})
check_amounts g o = do
  check_positive g o.total_quantity
  check_amount g o.filled_quantity
  check_amount g o.remaining_quantity
  check_optional g o.average_fill_price
  check_optional g o.working_limit_price

unfoldable pub check_quantities : LiveOrder → Outcome Fault (Unit {0})
check_quantities o = do
  raise_if (not (add default_prec o.filled_quantity o.remaining_quantity == o.total_quantity))
      Fault.parts_differ
  raise_if (ltb o.intent.quantity o.total_quantity) Fault.total_above_intent
  raise_if (differ (o.filled_quantity == 0) (is_none o.average_fill_price)) Fault.average_mismatch
  raise_if (o.version == 0) Fault.version_not_positive

-- States that only the broker's evidence can bring about.
abbrev pub needs_acceptance : LiveOrderState → Bool
needs_acceptance LiveOrderState.accepted = true
needs_acceptance LiveOrderState.partially_filled = true
needs_acceptance LiveOrderState.filled = true
needs_acceptance LiveOrderState.cancel_pending = true
needs_acceptance LiveOrderState.cancelled = true
needs_acceptance _ = false

unfoldable pub check_times : LiveOrderState → Option ℕ → ℕ → Outcome Fault (Unit {0})
check_times state accepted_at updated_at = do
  raise_if (needs_acceptance state && is_none accepted_at) Fault.acceptance_missing
  raise_if (is_after accepted_at updated_at) Fault.accepted_after_update

-- The bound command is this order's: the NEW of its intent, or one that names it.
unfoldable pub check_target : LiveOrderIntent → LiveCommand → Outcome Fault (Unit {0})
check_target i (LiveCommand.new_order c j t) = raise_if (not (intent_eq j i)) Fault.intent_mismatch
check_target i (LiveCommand.cancel_order c o t) =
    raise_if (not (o == i.client_order_id)) Fault.order_mismatch
check_target i (LiveCommand.amend_order c o p t) =
    raise_if (not (o == i.client_order_id)) Fault.order_mismatch
check_target i (LiveCommand.decrease_order c o e n t) =
    raise_if (not (o == i.client_order_id)) Fault.order_mismatch

unfoldable pub check_pending :
    LiveOrderIntent → ℕ → Option PendingCommandBinding → Outcome Fault (Unit {0})
unfolding check_target
check_pending i updated_at none = ok tt
check_pending i updated_at (some b) = do
  raise_if (ltb updated_at (bound_at b.command)) Fault.bound_after_update
  check_target i b.command

abbrev pub requires_binding : LiveOrderState → Bool
requires_binding LiveOrderState.submitting = true
requires_binding LiveOrderState.submission_unknown = true
requires_binding LiveOrderState.reconciling = true
requires_binding LiveOrderState.cancel_pending = true
requires_binding _ = false

abbrev pub forbids_binding : LiveOrderState → Bool
forbids_binding LiveOrderState.created = true
forbids_binding LiveOrderState.validated = true
forbids_binding LiveOrderState.filled = true
forbids_binding LiveOrderState.rejected = true
forbids_binding LiveOrderState.cancelled = true
forbids_binding _ = false

abbrev pub is_cancel_command : LiveCommand → Bool
is_cancel_command (LiveCommand.cancel_order c o t) = true
is_cancel_command _ = false

abbrev pub is_cancel_pending : LiveOrderState → Bool
is_cancel_pending LiveOrderState.cancel_pending = true
is_cancel_pending _ = false

-- The pending command is present and of the kind that the state asks for.
abbrev holds_other : Option PendingCommandBinding → Bool
holds_other none = false
holds_other (some b) = not (is_cancel_command b.command)

-- The state does not fit the presence of a pending command.
abbrev misfit : LiveOrderState → Outcome Fault (Unit {0})
misfit state =
    if requires_binding state
    then raise Fault.binding_required
    else raise_if (forbids_binding state) Fault.binding_retained

unfoldable pub check_binding_state :
    LiveOrderState → Option PendingCommandBinding → Outcome Fault (Unit {0})
check_binding_state state pending = do
  (if differ (requires_binding state) (is_some pending) then misfit state else ok tt)
  raise_if (is_cancel_pending state && holds_other pending) Fault.not_cancel_binding

-- The state's own condition on the total, the filled and the remaining quantity.
unfoldable pub check_progress : LiveOrderState → ℕ → ℕ → ℕ → Outcome Fault (Unit {0})
check_progress LiveOrderState.created total filled remaining =
    raise_if (not (filled == 0)) Fault.filled_not_zero
check_progress LiveOrderState.validated total filled remaining =
    raise_if (not (filled == 0)) Fault.filled_not_zero
check_progress LiveOrderState.submitting total filled remaining =
    raise_if (not (filled == 0)) Fault.filled_not_zero
check_progress LiveOrderState.accepted total filled remaining =
    raise_if (not (filled == 0)) Fault.filled_not_zero
check_progress LiveOrderState.rejected total filled remaining =
    raise_if (not (filled == 0)) Fault.filled_not_zero
check_progress LiveOrderState.partially_filled total filled remaining =
    raise_if (not (ltb 0 filled && ltb filled total)) Fault.not_partial
check_progress LiveOrderState.filled total filled remaining =
    raise_if (not (remaining == 0)) Fault.remaining_not_zero
check_progress LiveOrderState.cancel_pending total filled remaining =
    raise_if (remaining == 0) Fault.no_remaining
check_progress LiveOrderState.cancelled total filled remaining =
    raise_if (remaining == 0) Fault.no_remaining
check_progress LiveOrderState.submission_unknown total filled remaining = ok tt
check_progress LiveOrderState.reconciling total filled remaining = ok tt

-- `LiveOrder.__post_init__`: the order as built, or the first check that fails.
unfoldable pub post_init : Grid → LiveOrder → Outcome Fault LiveOrder
post_init g o = do
  check_amounts g o
  check_price o.intent.order_type o.working_limit_price
  check_quantities o
  check_times o.state o.accepted_at o.updated_at
  check_pending o.intent o.updated_at o.pending_command
  check_binding_state o.state o.pending_command
  check_progress o.state o.total_quantity o.filled_quantity o.remaining_quantity
  ok o
