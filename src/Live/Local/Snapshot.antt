-- ===== src/Live/Local/Snapshot.antt =====
-- Snapshots that keep the invariant.
use mathlib.Core.Path.{subst}
use tx_trader.Common.{
  and-false, raise_if, >>-eq_ok, ℕ, ◌≤◌, ◌<◌, ◌≡◌, refl, Bool-cases, true, false, Option, none,
  some, ok, arith, ltb, inl, inr,
}
use tx_trader.Decimals.{Grid}
use tx_trader.Decimals.Bounds.{LotFits}
use tx_trader.Live.Contracts.{
  Fault, bound_at, LiveOrderState, LiveOrderIntent, LiveCommandKind, PendingCommandBinding,
  is_terminal,
}
use tx_trader.Live.Order.{
  LiveOrder, check_times, check_pending, check_binding_state, check_progress, check_target,
  needs_acceptance, requires_binding,
}
use tx_trader.Live.Local.{Changes, only, changed, snapshot, require_binding, is_working}
use tx_trader.Live.Valid.{IsValid, check_bound, post_init-IsValid}

-- A snapshot whose fields have the invariant, at a time that does not go back, is built.
pub snapshot-IsValid :
    (g : Grid) (k : ℕ) (o : LiveOrder) (c : Changes)
    → LotFits g k
    → o.updated_at ≤ c.updated_at
    → IsValid g k (changed o c)
    → snapshot g o c ≡ ok (changed o c)
unfolding snapshot
snapshot-IsValid g k o c f h v = rw (post_init-IsValid g k (changed o c) f v) (ground (arith, h))

-- A change of state, time and binding alone keeps the invariant if these three fit the rest.
pub only-IsValid :
    (g : Grid) (k : ℕ) (o : LiveOrder) (s : LiveOrderState) (t : ℕ)
    (p : Option PendingCommandBinding)
    → IsValid g k o
    → check_times s o.accepted_at t ≡ ok tt
    → check_pending o.intent t p ≡ ok tt
    → check_bound g p ≡ ok tt
    → check_binding_state s p ≡ ok tt
    → check_progress s o.total_quantity o.filled_quantity o.remaining_quantity ≡ ok tt
    → (is_terminal s ≡ false → 0 < o.remaining_quantity)
    → IsValid g k (changed o (only s t p))
unfolding changed
only-IsValid g k o s t p v timed targeted bound fits progressed rest = record {
  total_on = v.total_on;
  filled_on = v.filled_on;
  remaining_on = v.remaining_on;
  total_pos = v.total_pos;
  parts = v.parts;
  within = v.within;
  average_good = v.average_good;
  limit_good = v.limit_good;
  priced = v.priced;
  averaged = v.averaged;
  versioned = omega arith;
  timed = timed;
  targeted = targeted;
  bound_good = bound;
  bound_fits = fits;
  progressed = progressed;
  rest_open = rest;
}

-- The clock may move on under the same acceptance, in a state that asks for no more.
pub check_times-later :
    (s s' : LiveOrderState) (a : Option ℕ) (u t : ℕ)
    → u ≤ t
    → check_times s a u ≡ ok tt
    → (needs_acceptance s' ≡ true → needs_acceptance s ≡ true)
    → check_times s' a t ≡ ok tt
unfolding check_times
check_times-later s s' none u t h c n = elim (Bool-cases (needs_acceptance s')) [
  | inl asks ↦ rw asks (rw (n asks) at c)
  | inr free ↦ rw free
]
check_times-later s s' (some x) u t h c n = ground (arith, and-false (needs_acceptance s))

-- A binding that `_require_binding_for_order` lets through passes the order's own check.
pub check_pending-required :
    (o : LiveOrder) (p : Option PendingCommandBinding) (kind : LiveCommandKind) (t : ℕ)
    → require_binding o p kind t ≡ ok tt
    → check_pending o.intent t p ≡ ok tt
unfolding require_binding check_pending check_target
check_pending-required o p kind t h = ground arith

-- A working state is open and has been accepted.
pub working_open : (s : LiveOrderState) → is_working s ≡ true → is_terminal s ≡ false
working_open s h = ground arith

pub working_accepted : (s : LiveOrderState) → is_working s ≡ true → needs_acceptance s ≡ true
working_accepted s h = ground arith

-- A snapshot that has the invariant and is returned is the order that was returned.
pub returned-IsValid :
    (g : Grid) (k : ℕ) (o : LiveOrder) (c : Changes) {o' : LiveOrder}
    → LotFits g k
    → o.updated_at ≤ c.updated_at
    → IsValid g k (changed o c)
    → snapshot g o c ≡ ok o'
    → IsValid g k o'
returned-IsValid g k o c {o' = o'} f h v e =
    let built : changed o c ≡ o' = cc (snapshot-IsValid g k o c f h v) in
    subst (IsValid g k) built v

-- A binding stays in order as the clock moves on.
pub check_pending-later :
    (i : LiveOrderIntent) (u t : ℕ) (p : Option PendingCommandBinding)
    → u ≤ t
    → check_pending i u p ≡ ok tt
    → check_pending i t p ≡ ok tt
unfolding check_pending
check_pending-later i u t none h c = refl
check_pending-later i u t (some b) h c =
    let (early, target) =
      >>-eq_ok (raise_if (ltb u (bound_at b.command)) Fault.bound_after_update) _ c in
    rw target (ground arith)

-- What a state that asks for a binding holds fits RECONCILING.
pub reconciling_fits :
    (s : LiveOrderState) (p : Option PendingCommandBinding)
    → check_binding_state s p ≡ ok tt
    → requires_binding s ≡ true
    → check_binding_state LiveOrderState.reconciling p ≡ ok tt
unfolding check_binding_state
reconciling_fits s none c h = ground arith
reconciling_fits s (some b) c h = refl
