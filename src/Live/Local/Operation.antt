-- ===== src/Live/Local/Operation.antt =====
-- `bind_operation` keeps the invariant.
use tx_trader.Common.{ℕ, ◌≤◌, ◌≡◌, true, false, Option, none, some, ok, arith}
use tx_trader.Decimals.{Grid}
use tx_trader.Decimals.Bounds.{LotFits}
use tx_trader.Live.Contracts.{LiveOrderState, PendingCommandBinding, check_command, command_kind}
use tx_trader.Live.Order.{LiveOrder, check_binding_state}
use tx_trader.Live.Local.{
  only, changed, snapshot, require_binding, bind_operation, is_working, is_operation, misses_total,
}
use tx_trader.Live.Valid.{IsValid}
use tx_trader.Live.Local.Snapshot.{
  only-IsValid, check_times-later, check_pending-required, returned-IsValid,
}

-- What a successful `bind_operation` has checked, and the snapshot that it returns.
pub bind_operation-eq_ok :
    (g : Grid) (o : LiveOrder) (b : PendingCommandBinding) (t : ℕ) {o' : LiveOrder}
    → bind_operation g o b t ≡ ok o'
    → (o.updated_at ≤ t)
      × (require_binding o (some b) (command_kind b.command) t ≡ ok tt)
      × (is_working o.state ≡ true)
      × (is_operation (command_kind b.command) ≡ true)
      × (o.pending_command ≡ none)
      × (misses_total o b.command ≡ false)
      × (snapshot g o (only o.state t (some b)) ≡ ok o')
unfolding bind_operation
bind_operation-eq_ok g o b t h = ground arith

-- A working state may hold a binding or none.
working_fits :
    (s : LiveOrderState) (p : Option PendingCommandBinding)
    → is_working s ≡ true
    → check_binding_state s p ≡ ok tt
unfolding check_binding_state
working_fits s p h = ground arith

pub bound-IsValid :
    (g : Grid) (k : ℕ) (o : LiveOrder) (b : PendingCommandBinding) (t : ℕ)
    → IsValid g k o
    → check_command g b.command ≡ ok tt
    → o.updated_at ≤ t
    → require_binding o (some b) (command_kind b.command) t ≡ ok tt
    → is_working o.state ≡ true
    → IsValid g k (changed o (only o.state t (some b)))
bound-IsValid g k o b t v c time bound working =
    only-IsValid g k o o.state t (some b) v
      (check_times-later o.state o.state o.accepted_at o.updated_at t time v.timed (λ n. n))
      (check_pending-required o (some b) (command_kind b.command) t bound) c
      (working_fits o.state (some b) working) v.progressed v.rest_open

-- An AMEND or DECREASE that is bound to a valid order, with a command its constructor accepts,
-- gives a valid order.
pub bind_operation-IsValid :
    (g : Grid) (k : ℕ) (o : LiveOrder) (b : PendingCommandBinding) (t : ℕ) {o' : LiveOrder}
    → LotFits g k
    → IsValid g k o
    → check_command g b.command ≡ ok tt
    → bind_operation g o b t ≡ ok o'
    → IsValid g k o'
bind_operation-IsValid g k o b t f v c h =
    let (time, bound, working, _, _, _, snap) = bind_operation-eq_ok g o b t h in
    returned-IsValid g k o (only o.state t (some b)) f time
      (bound-IsValid g k o b t v c time bound working) snap
