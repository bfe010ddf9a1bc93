-- ===== src/Live/Reduce/FillFits.antt =====
-- What a fill leaves of the state, the binding and the quantities fits together.
use tx_trader.Common.{
  and-false, raise_if, >>-eq_ok, raise_if-eq_ok, ℕ, ◌+◌, ◌-◌, ◌≤◌, ◌<◌, ◌≡◌, refl, false, Option,
  none, some, ok, arith, inl, inr, if◌then◌else◌, ltb, ◌==◌, ◌&&◌, is_none,
}
use tx_trader.Decimals.{Grid, sub, default_prec}
use tx_trader.Decimals.Exact.{sub-OnLot}
use tx_trader.Live.Contracts.{LiveOrderState, Fault}
use tx_trader.Live.Events.{is_after}
use tx_trader.Live.Order.{LiveOrder, check_times, needs_acceptance}
use tx_trader.Live.Valid.{IsValid}
use tx_trader.Common.{◌⊎◌}
use tx_trader.Decimals.{add}
use tx_trader.Decimals.Exact.{OnLot, OnLot-add, add-OnLot}
use tx_trader.Live.Contracts.{PendingCommandBinding, is_terminal, check_positive}
use tx_trader.Live.Events.{NormalizedBrokerFillEvent, check_fill_event, check_sequences}
use tx_trader.Live.Order.{check_pending, check_binding_state, check_progress}
use tx_trader.Live.Valid.{check_bound}
use tx_trader.Live.Reduce.Transition.{is_closed_for_fills}
use tx_trader.Live.Reduce.FillEvent.{open_after_fill, binding_after_fill}

-- What a well-formed fill event gives.
pub check_fill_event-eq_ok :
    (g : Grid) (e : NormalizedBrokerFillEvent)
    → check_fill_event g e ≡ ok tt
    → (check_positive g e.quantity ≡ ok tt)
      × (check_positive g e.execution_price ≡ ok tt)
      × ((is_none e.correlation.broker_fill_id && is_none e.correlation.execution_no) ≡ false)
      × (is_after e.occurred_at e.received_at ≡ false)
unfolding check_fill_event
check_fill_event-eq_ok g e h =
    let (quantity, h1) = >>-eq_ok (check_positive g e.quantity) _ h in
    let (price, h2) = >>-eq_ok (check_positive g e.execution_price) _ h1 in
    let (_, h3) =
      >>-eq_ok
        (check_sequences e.broker_session_generation e.adapter_received_sequence e.correlation) _
        h2 in
    let (id, time) =
      >>-eq_ok
        (raise_if (is_none e.correlation.broker_fill_id && is_none e.correlation.execution_no)
          Fault.no_fill_id)
        _ h3 in
    (
      quantity,
      price,
      raise_if-eq_ok _ Fault.no_fill_id id,
      raise_if-eq_ok _ Fault.occurred_after_receipt time,
    )

-- The state and the binding that a fill leaves fit each other and the quantities.
unfoldable pub state_after_fill : LiveOrderState → ℕ → LiveOrderState
state_after_fill s rest = if rest == 0 then LiveOrderState.filled else open_after_fill s

unfoldable pub bound_after_fill :
    LiveOrderState → ℕ → Option PendingCommandBinding → Option PendingCommandBinding
bound_after_fill s rest p = if rest == 0 then none else binding_after_fill s p

pub after_fill-fits :
    (s : LiveOrderState) (rest : ℕ) (p : Option PendingCommandBinding)
    → check_binding_state s p ≡ ok tt
    → is_closed_for_fills s ≡ false
    → check_binding_state (state_after_fill s rest) (bound_after_fill s rest p) ≡ ok tt
unfolding check_binding_state state_after_fill bound_after_fill
after_fill-fits s rest p h c = ground arith

pub after_fill-progress :
    (s : LiveOrderState) (total filled rest : ℕ)
    → 0 < filled
    → filled + rest ≡ total
    → check_progress (state_after_fill s rest) total filled rest ≡ ok tt
unfolding check_progress state_after_fill
after_fill-progress s total filled rest h e = ground arith

pub after_fill-open :
    (s : LiveOrderState) (rest : ℕ) → is_terminal (state_after_fill s rest) ≡ false → 0 < rest
unfolding state_after_fill
after_fill-open s rest h = ground arith

-- A fill keeps the binding or drops it.
bound_after_fill-cases :
    (s : LiveOrderState) (rest : ℕ) (p : Option PendingCommandBinding)
    → (bound_after_fill s rest p ≡ none) ⊎ (bound_after_fill s rest p ≡ p)
unfolding bound_after_fill
bound_after_fill-cases s rest none = ground arith
bound_after_fill-cases s rest (some b) = ground arith

check_pending-none : (o : LiveOrder) (t : ℕ) → check_pending o.intent t none ≡ ok tt
unfolding check_pending
check_pending-none o t = refl

pub bound_after_fill-targeted :
    (g : Grid) (o : LiveOrder) (t rest : ℕ) (p : Option PendingCommandBinding)
    → check_pending o.intent t p ≡ ok tt
    → check_bound g p ≡ ok tt
    → (check_pending o.intent t (bound_after_fill o.state rest p) ≡ ok tt)
      × (check_bound g (bound_after_fill o.state rest p) ≡ ok tt)
bound_after_fill-targeted g o t rest p h c = elim (bound_after_fill-cases o.state rest p) [
  | inl dropped ↦ rw dropped (check_pending-none o t, refl)
  | inr held ↦ rw held (h, c)
]

-- The sums that the reducer makes are exact.
pub filled_exact :
    (g : Grid) (k : ℕ) (o : LiveOrder) (q : ℕ)
    → IsValid g k o
    → OnLot default_prec k q
    → q ≤ o.remaining_quantity
    → OnLot default_prec k (o.filled_quantity + q)
      × (add default_prec o.filled_quantity q ≡ o.filled_quantity + q)
      × (sub default_prec o.total_quantity (o.filled_quantity + q)
          ≡ o.total_quantity - (o.filled_quantity + q))
filled_exact g k o q v on h =
    let sum =
      OnLot-add default_prec k o.filled_quantity q o.total_quantity v.filled_on on v.total_on
        (omega (arith, v.parts)) in
    (
      sum,
      add-OnLot default_prec k o.filled_quantity q sum,
      sub-OnLot default_prec k o.total_quantity _ v.total_on sum,
    )

pub accepted_good :
    (s : LiveOrderState) (a t : ℕ) → ltb t a ≡ false → check_times s (some a) t ≡ ok tt
unfolding check_times
accepted_good s a t h = rw (and-false (needs_acceptance s)) (rw h)
