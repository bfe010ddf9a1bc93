-- ===== src/Live/Local/Advance.antt =====
-- `create_live_order` and `advance_local` establish and keep the invariant.
use tx_trader.Common.{>>-eq_ok, ℕ, ◌≤◌, ◌<◌, ◌≡◌, refl, false, Option, none, some, ok, arith}
use tx_trader.Decimals.{Grid, default_prec}
use tx_trader.Decimals.Exact.{OnLot, OnLot-zero}
use tx_trader.Decimals.Bounds.{LotFits}
use tx_trader.Live.Contracts.{
  LiveOrderState, LiveOrderIntent, LiveCommandKind, PendingCommandBinding, is_terminal,
  check_intent, check_optional, check_positive, check_price,
}
use tx_trader.Live.Order.{
  LiveOrder, check_times, check_pending, check_binding_state, check_progress,
}
use tx_trader.Live.Local.{
  only, snapshot, create_live_order, fresh, check_time, require_binding, advance, advance_local,
}
use tx_trader.Live.Valid.{
  IsValid, check_bound, check_positive-pos, check_optional-none, post_init-IsValid,
}
use tx_trader.Live.Local.Snapshot.{
  only-IsValid, check_times-later, check_pending-required, returned-IsValid, check_pending-later,
  reconciling_fits,
}

-- What `LiveOrderIntent.__post_init__` has checked.
check_intent-eq_ok :
    (g : Grid) (i : LiveOrderIntent)
    → check_intent g i ≡ ok tt
    → (0 < i.quantity)
      × (check_optional g i.limit_price ≡ ok tt)
      × (check_price i.order_type i.limit_price ≡ ok tt)
unfolding check_intent
check_intent-eq_ok g i h =
    let (quantity, rest) = >>-eq_ok (check_positive g i.quantity) _ h in
    let (limit, price) = >>-eq_ok (check_optional g i.limit_price) _ rest in
    (check_positive-pos g i.quantity quantity, limit, price)

fresh-IsValid :
    (g : Grid) (k : ℕ) (i : LiveOrderIntent)
    → check_intent g i ≡ ok tt
    → OnLot default_prec k i.quantity
    → IsValid g k (fresh i)
unfolding check_times check_pending check_binding_state check_progress
fresh-IsValid g k i c on =
    let (pos, good, priced) = check_intent-eq_ok g i c in
    record {
      total_on = on;
      filled_on = OnLot-zero default_prec k;
      remaining_on = on;
      total_pos = pos;
      parts = omega arith;
      within = omega arith;
      average_good = check_optional-none g;
      limit_good = good;
      priced = priced;
      averaged = refl;
      versioned = omega arith;
      timed = refl;
      targeted = refl;
      bound_good = refl;
      bound_fits = refl;
      progressed = refl;
      rest_open = λ _. pos;
    }

-- For an intent that its constructor accepts, with a quantity on a lot that fits, the order is
-- created: it is the fresh one, and it is valid.
pub create_live_order-IsValid :
    (g : Grid) (k : ℕ) (i : LiveOrderIntent)
    → LotFits g k
    → check_intent g i ≡ ok tt
    → OnLot default_prec k i.quantity
    → (create_live_order g i ≡ ok (fresh i)) × IsValid g k (fresh i)
unfolding create_live_order
create_live_order-IsValid g k i f c on =
    let v = fresh-IsValid g k i c on in (post_init-IsValid g k (fresh i) f v, v)

-- The three moves that `advance_local` makes, with what each has checked.
pub data Advance (g : Grid) (o : LiveOrder) (t : ℕ) (p : Option PendingCommandBinding)
    (to : LiveOrderState) (o' : LiveOrder) : Type 0 where
  validate :
      o.state ≡ LiveOrderState.created
      → to ≡ LiveOrderState.validated
      → snapshot g o (only LiveOrderState.validated t none) ≡ ok o'
      → Advance g o t p to o'
  submit :
      o.state ≡ LiveOrderState.validated
      → to ≡ LiveOrderState.submitting
      → require_binding o p LiveCommandKind.new t ≡ ok tt
      → snapshot g o (only LiveOrderState.submitting t p) ≡ ok o'
      → Advance g o t p to o'
  give_up :
      o.state ≡ LiveOrderState.submission_unknown
      → to ≡ LiveOrderState.reconciling
      → snapshot g o (only LiveOrderState.reconciling t o.pending_command) ≡ ok o'
      → Advance g o t p to o'

check_time-le : (o : LiveOrder) (t : ℕ) → check_time o t ≡ ok tt → o.updated_at ≤ t
check_time-le o t h = ground arith

advance_cases :
    (g : Grid) (o : LiveOrder) (t : ℕ) (p : Option PendingCommandBinding) (s s' : LiveOrderState)
    {o' : LiveOrder}
    → o.state ≡ s
    → advance g o t p s s' ≡ ok o'
    → Advance g o t p s' o'
unfolding advance
advance_cases g o t none LiveOrderState.created LiveOrderState.validated e h =
    Advance.validate e refl h
advance_cases g o t (some b) LiveOrderState.created LiveOrderState.validated e h = cc
advance_cases g o t p LiveOrderState.validated LiveOrderState.submitting e h =
    let (r, snap) = >>-eq_ok (require_binding o p LiveCommandKind.new t) _ h in
    Advance.submit e refl r snap
advance_cases g o t none LiveOrderState.submission_unknown LiveOrderState.reconciling e h =
    Advance.give_up e refl h
advance_cases g o t (some b) _ _ e h = cc
advance_cases g o t none _ _ e h = cc

-- What `advance_local` lets through does not go back in time and is one of three moves: CREATED to
-- VALIDATED, VALIDATED to SUBMITTING with a NEW binding, SUBMISSION_UNKNOWN to RECONCILING.
pub advance_local-eq_ok :
    (g : Grid) (o : LiveOrder) (target : LiveOrderState) (t : ℕ) (p : Option PendingCommandBinding)
    {o' : LiveOrder}
    → advance_local g o target t p ≡ ok o'
    → (o.updated_at ≤ t) × Advance g o t p target o'
unfolding advance_local
advance_local-eq_ok g o target t p h =
    let (time, rest) = >>-eq_ok (check_time o t) _ h in
    (check_time-le o t time, advance_cases g o t p o.state target refl rest)

check_pending-none : (o : LiveOrder) (t : ℕ) → check_pending o.intent t none ≡ ok tt
unfolding check_pending
check_pending-none o t = refl

validated_fits : check_binding_state LiveOrderState.validated none ≡ ok tt
unfolding check_binding_state
validated_fits = refl

-- NEW is bound to the order that is submitted, and fits SUBMITTING.
submit_fits :
    (o : LiveOrder) (p : Option PendingCommandBinding) (t : ℕ)
    → require_binding o p LiveCommandKind.new t ≡ ok tt
    → check_binding_state LiveOrderState.submitting p ≡ ok tt
unfolding require_binding check_binding_state
submit_fits o p t h = ground arith

-- The binding and the progress of an order in one of the three states that the moves start from.
start_facts :
    (g : Grid) (k : ℕ) (o : LiveOrder) (s : LiveOrderState)
    → IsValid g k o
    → o.state ≡ s
    → (check_binding_state s o.pending_command ≡ ok tt)
      × (check_progress s o.total_quantity o.filled_quantity o.remaining_quantity ≡ ok tt)
      × (is_terminal s ≡ false → 0 < o.remaining_quantity)
      × (check_times s o.accepted_at o.updated_at ≡ ok tt)
start_facts g k o s v e =
    (rw e at v.bound_fits, rw e at v.progressed, λ h. v.rest_open (rw e h), rw e at v.timed)

Advance-IsValid :
    (g : Grid) (k : ℕ) (o : LiveOrder) (t : ℕ) (p : Option PendingCommandBinding)
    (to : LiveOrderState) {o' : LiveOrder}
    → LotFits g k
    → IsValid g k o
    → o.updated_at ≤ t
    → check_bound g p ≡ ok tt
    → Advance g o t p to o'
    → IsValid g k o'
unfolding check_progress
Advance-IsValid g k o t p to f v h c (Advance.validate e _ snap) =
    let (fits, progressed, rest, timed) = start_facts g k o LiveOrderState.created v e in
    returned-IsValid g k o (only LiveOrderState.validated t none) f h
      (only-IsValid g k o LiveOrderState.validated t none v
        (check_times-later LiveOrderState.created LiveOrderState.validated o.accepted_at
          o.updated_at t h timed (λ n. n))
        (check_pending-none o t) refl validated_fits progressed rest)
      snap
Advance-IsValid g k o t p to f v h c (Advance.submit e _ r snap) =
    let (fits, progressed, rest, timed) = start_facts g k o LiveOrderState.validated v e in
    returned-IsValid g k o (only LiveOrderState.submitting t p) f h
      (only-IsValid g k o LiveOrderState.submitting t p v
        (check_times-later LiveOrderState.validated LiveOrderState.submitting o.accepted_at
          o.updated_at t h timed (λ n. n))
        (check_pending-required o p LiveCommandKind.new t r) c (submit_fits o p t r) progressed
        rest)
      snap
Advance-IsValid g k o t p to f v h c (Advance.give_up e _ snap) =
    let (fits, progressed, rest, timed) = start_facts g k o LiveOrderState.submission_unknown v e in
    returned-IsValid g k o (only LiveOrderState.reconciling t o.pending_command) f h
      (only-IsValid g k o LiveOrderState.reconciling t o.pending_command v
        (check_times-later LiveOrderState.submission_unknown LiveOrderState.reconciling
          o.accepted_at o.updated_at t h timed (λ n. n))
        (check_pending-later o.intent o.updated_at t o.pending_command h v.targeted) v.bound_good
        (reconciling_fits LiveOrderState.submission_unknown o.pending_command fits refl) refl rest)
      snap

-- A local transition that is accepted for a valid order, with a command its constructor accepts
-- where it binds one, gives a valid order.
pub advance_local-IsValid :
    (g : Grid) (k : ℕ) (o : LiveOrder) (target : LiveOrderState) (t : ℕ)
    (p : Option PendingCommandBinding) {o' : LiveOrder}
    → LotFits g k
    → IsValid g k o
    → check_bound g p ≡ ok tt
    → advance_local g o target t p ≡ ok o'
    → IsValid g k o'
advance_local-IsValid g k o target t p f v c h =
    let (time, move) = advance_local-eq_ok g o target t p h in
    Advance-IsValid g k o t p target f v time c move
