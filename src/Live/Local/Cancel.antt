-- ===== src/Live/Local/Cancel.antt =====
-- `request_cancel` keeps the invariant, and when it goes through.
use tx_trader.Common.{ℕ, ◌≤◌, ◌≡◌, true, none, some, ok, arith}
use tx_trader.Decimals.{Grid}
use tx_trader.Decimals.Bounds.{LotFits}
use tx_trader.Live.Contracts.{LiveOrderState, LiveCommandKind, PendingCommandBinding, check_command}
use tx_trader.Live.Order.{LiveOrder, check_binding_state, check_progress}
use tx_trader.Live.Local.{only, changed, snapshot, require_binding, request_cancel, is_working}
use tx_trader.Live.Valid.{IsValid}
use tx_trader.Live.Local.Snapshot.{
  snapshot-IsValid, only-IsValid, check_times-later, check_pending-required, working_open,
  working_accepted, returned-IsValid,
}

-- What a successful `request_cancel` has checked, and the snapshot that it returns.
pub request_cancel-eq_ok :
    (g : Grid) (o : LiveOrder) (b : PendingCommandBinding) (t : ℕ) {o' : LiveOrder}
    → request_cancel g o b t ≡ ok o'
    → (o.updated_at ≤ t)
      × (require_binding o (some b) LiveCommandKind.cancel t ≡ ok tt)
      × (is_working o.state ≡ true)
      × (o.pending_command ≡ none)
      × (snapshot g o (only LiveOrderState.cancel_pending t (some b)) ≡ ok o')
unfolding request_cancel
request_cancel-eq_ok g o b t h = ground arith

-- A binding of the kind CANCEL fits CANCEL_PENDING.
cancel_fits :
    (o : LiveOrder) (b : PendingCommandBinding) (t : ℕ)
    → require_binding o (some b) LiveCommandKind.cancel t ≡ ok tt
    → check_binding_state LiveOrderState.cancel_pending (some b) ≡ ok tt
unfolding require_binding check_binding_state
cancel_fits o b t h = ground arith

pub cancel_pending-IsValid :
    (g : Grid) (k : ℕ) (o : LiveOrder) (b : PendingCommandBinding) (t : ℕ)
    → IsValid g k o
    → check_command g b.command ≡ ok tt
    → o.updated_at ≤ t
    → require_binding o (some b) LiveCommandKind.cancel t ≡ ok tt
    → is_working o.state ≡ true
    → IsValid g k (changed o (only LiveOrderState.cancel_pending t (some b)))
unfolding check_progress
cancel_pending-IsValid g k o b t v c h r w =
    let rest = v.rest_open (working_open o.state w) in
    only-IsValid g k o LiveOrderState.cancel_pending t (some b) v
      (check_times-later o.state LiveOrderState.cancel_pending o.accepted_at o.updated_at t h
        v.timed (λ _. working_accepted o.state w))
      (check_pending-required o (some b) LiveCommandKind.cancel t r) c (cancel_fits o b t r)
      (ground (arith, rest)) (λ _. rest)

-- A cancel request that is accepted for a valid order, with a command its constructor accepts,
-- gives a valid order.
pub request_cancel-IsValid :
    (g : Grid) (k : ℕ) (o : LiveOrder) (b : PendingCommandBinding) (t : ℕ) {o' : LiveOrder}
    → LotFits g k
    → IsValid g k o
    → check_command g b.command ≡ ok tt
    → request_cancel g o b t ≡ ok o'
    → IsValid g k o'
request_cancel-IsValid g k o b t f v c h =
    let (time, bound, working, _, snap) = request_cancel-eq_ok g o b t h in
    returned-IsValid g k o (only LiveOrderState.cancel_pending t (some b)) f time
      (cancel_pending-IsValid g k o b t v c time bound working) snap

-- A cancel request for a valid, working order with no pending command goes through if its time
-- does not go back and the binding is a CANCEL of this order that is not bound in the future: it
-- gives the order in CANCEL_PENDING with this binding.
pub request_cancel_succeeds :
    (g : Grid) (k : ℕ) (o : LiveOrder) (b : PendingCommandBinding) (t : ℕ)
    → LotFits g k
    → IsValid g k o
    → check_command g b.command ≡ ok tt
    → o.updated_at ≤ t
    → require_binding o (some b) LiveCommandKind.cancel t ≡ ok tt
    → is_working o.state ≡ true
    → o.pending_command ≡ none
    → request_cancel g o b t ≡ ok (changed o (only LiveOrderState.cancel_pending t (some b)))
unfolding request_cancel
request_cancel_succeeds g k o b t f v c h r w p = ground (
  arith,
  snapshot-IsValid g k o (only LiveOrderState.cancel_pending t (some b)) f h
      (cancel_pending-IsValid g k o b t v c h r w),
)
