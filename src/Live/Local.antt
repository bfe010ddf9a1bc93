-- ===== src/Live/Local.antt =====
-- tx_trade/orders/live_state_machine.py: creation and the transitions that the caller controls.
pub mod Snapshot
pub mod Cancel
pub mod Operation
pub mod Advance
pub mod Requests
use tx_trader.Common.{
  ℕ, ◌+◌, Bool, true, false, not, Option, none, some, Outcome, raise, ◌>>◌, raise_if, ltb, ◌==◌,
  is_some, or_else,
}
use tx_trader.Decimals.{Grid}
use tx_trader.Live.Contracts.{
  LiveOrderState, LiveOrderIntent, LiveCommand, LiveCommandKind, Fault, PendingCommandBinding,
  intent_eq, bound_at, command_kind,
}
use tx_trader.Live.Order.{LiveOrder, post_init}

-- The keyword arguments of `_snapshot`; `none` leaves a field as it is, but clears the binding.
pub record Changes : Type 0 where
  pub state : LiveOrderState
  pub updated_at : ℕ
  pub total_quantity : Option ℕ
  pub filled_quantity : Option ℕ
  pub remaining_quantity : Option ℕ
  pub average_fill_price : Option ℕ
  pub working_limit_price : Option ℕ
  pub accepted_at : Option ℕ
  pub pending_command : Option PendingCommandBinding

-- A call of `_snapshot` that names only these three.
abbrev pub only : LiveOrderState → ℕ → Option PendingCommandBinding → Changes
only state updated_at pending = record {
  state = state;
  updated_at = updated_at;
  total_quantity = none;
  filled_quantity = none;
  remaining_quantity = none;
  average_fill_price = none;
  working_limit_price = none;
  accepted_at = none;
  pending_command = pending;
}

-- `old if new is None else new` where the field itself may be None.
abbrev pub replaced : Option ℕ → Option ℕ → Option ℕ
replaced none old = old
replaced (some v) old = some v

-- The fields that `replace` builds the next order from.
unfoldable pub changed : LiveOrder → Changes → LiveOrder
changed o c = record o {
  state = c.state;
  total_quantity = or_else c.total_quantity o.total_quantity;
  filled_quantity = or_else c.filled_quantity o.filled_quantity;
  remaining_quantity = or_else c.remaining_quantity o.remaining_quantity;
  average_fill_price = replaced c.average_fill_price o.average_fill_price;
  working_limit_price = replaced c.working_limit_price o.working_limit_price;
  version = o.version + 1;
  updated_at = c.updated_at;
  accepted_at = replaced c.accepted_at o.accepted_at;
  pending_command = c.pending_command;
}

-- `_snapshot`.
unfoldable pub snapshot : Grid → LiveOrder → Changes → Outcome Fault LiveOrder
snapshot g o c = do
  raise_if (ltb c.updated_at o.updated_at) Fault.time_backwards
  post_init g (changed o c)

-- The order that `create_live_order` builds.
abbrev pub fresh : LiveOrderIntent → LiveOrder
fresh i = record {
  intent = i;
  state = LiveOrderState.created;
  total_quantity = i.quantity;
  filled_quantity = 0;
  remaining_quantity = i.quantity;
  average_fill_price = none;
  working_limit_price = i.limit_price;
  version = 1;
  updated_at = i.created_at;
  accepted_at = none;
  pending_command = none;
}

unfoldable pub create_live_order : Grid → LiveOrderIntent → Outcome Fault LiveOrder
create_live_order g i = post_init g (fresh i)

abbrev pub kind_eq : LiveCommandKind → LiveCommandKind → Bool
kind_eq LiveCommandKind.new LiveCommandKind.new = true
kind_eq LiveCommandKind.cancel LiveCommandKind.cancel = true
kind_eq LiveCommandKind.amend LiveCommandKind.amend = true
kind_eq LiveCommandKind.decrease LiveCommandKind.decrease = true
kind_eq _ _ = false

-- The command is for this order.
abbrev pub is_for : LiveOrder → LiveCommand → Bool
is_for o (LiveCommand.new_order c i t) = intent_eq i o.intent
is_for o (LiveCommand.cancel_order c oid t) = oid == o.intent.client_order_id
is_for o (LiveCommand.amend_order c oid p t) = oid == o.intent.client_order_id
is_for o (LiveCommand.decrease_order c oid e n t) = oid == o.intent.client_order_id

abbrev target_fault : LiveCommand → Fault
target_fault (LiveCommand.new_order c i t) = Fault.intent_mismatch
target_fault _ = Fault.order_mismatch

-- `_require_binding_for_order`.
unfoldable pub require_binding :
    LiveOrder → Option PendingCommandBinding → LiveCommandKind → ℕ → Outcome Fault (Unit {0})
require_binding o none kind occurred_at = raise Fault.binding_missing
require_binding o (some b) kind occurred_at = do
  raise_if (not (kind_eq (command_kind b.command) kind)) Fault.wrong_kind
  raise_if (ltb occurred_at (bound_at b.command)) Fault.bound_in_future
  raise_if (not (is_for o b.command)) (target_fault b.command)

-- `_validate_order_and_time`.
abbrev pub check_time : LiveOrder → ℕ → Outcome Fault (Unit {0})
check_time o occurred_at = raise_if (ltb occurred_at o.updated_at) Fault.time_backwards

-- The branches of `advance_local`, by the order's state and the target.
unfoldable pub advance :
    Grid
    → LiveOrder
    → ℕ
    → Option PendingCommandBinding
    → (from to : LiveOrderState) → Outcome Fault LiveOrder
advance g o t pending LiveOrderState.created LiveOrderState.validated = do
  raise_if (is_some pending) Fault.validation_binds
  snapshot g o (only LiveOrderState.validated t none)
advance g o t pending LiveOrderState.validated LiveOrderState.submitting = do
  require_binding o pending LiveCommandKind.new t
  snapshot g o (only LiveOrderState.submitting t pending)
advance g o t none LiveOrderState.submission_unknown LiveOrderState.reconciling =
    snapshot g o (only LiveOrderState.reconciling t o.pending_command)
advance g o t pending _ _ = raise Fault.not_allowed

unfoldable pub advance_local :
    Grid → LiveOrder → LiveOrderState → ℕ → Option PendingCommandBinding → Outcome Fault LiveOrder
advance_local g o target t pending = do check_time o t; advance g o t pending o.state target

abbrev pub is_working : LiveOrderState → Bool
is_working LiveOrderState.accepted = true
is_working LiveOrderState.partially_filled = true
is_working _ = false

unfoldable pub request_cancel :
    Grid → LiveOrder → PendingCommandBinding → ℕ → Outcome Fault LiveOrder
request_cancel g o b t = do
  check_time o t
  require_binding o (some b) LiveCommandKind.cancel t
  raise_if (not (is_working o.state)) Fault.not_allowed
  raise_if (is_some o.pending_command) Fault.already_pending
  snapshot g o (only LiveOrderState.cancel_pending t (some b))

abbrev pub is_operation : LiveCommandKind → Bool
is_operation LiveCommandKind.amend = true
is_operation LiveCommandKind.decrease = true
is_operation _ = false

-- A decrease whose expected total is not the order's.
abbrev pub misses_total : LiveOrder → LiveCommand → Bool
misses_total o (LiveCommand.decrease_order c oid expected n t) = not (expected == o.total_quantity)
misses_total o _ = false

unfoldable pub bind_operation :
    Grid → LiveOrder → PendingCommandBinding → ℕ → Outcome Fault LiveOrder
bind_operation g o b t = do
  check_time o t
  raise_if (not (is_operation (command_kind b.command))) Fault.not_an_operation
  require_binding o (some b) (command_kind b.command) t
  raise_if (not (is_working o.state)) Fault.not_allowed
  raise_if (is_some o.pending_command) Fault.already_pending
  raise_if (misses_total o b.command) Fault.expected_total_mismatch
  snapshot g o (only o.state t (some b))
