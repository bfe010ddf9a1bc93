-- ===== src/Live/Reduce/OrderEventValid.antt =====
-- A well-formed broker order event is always reduced, and the order that comes out is valid.
use tx_trader.Common.{
  raise_if, >>-eq_ok, raise_if-eq_ok, Returns-if, ℕ, ◌≤◌, ◌≡◌, Bool-cases, false, not, Option, none,
  some, ok, arith, inl, inr, Returns, later, if◌then◌else◌, ltb, ◌&&◌, IfSome, is_none,
}
use tx_trader.Decimals.{Grid, default_prec}
use tx_trader.Decimals.Exact.{OnLot-sub, sub-OnLot}
use tx_trader.Decimals.Bounds.{LotFits}
use tx_trader.Live.Contracts.{LiveOrderState, Fault}
use tx_trader.Live.Events.{
  NormalizedBrokerOrderEvent, Evidence, is_after, check_order_event, order_payload,
}
use tx_trader.Live.Order.{LiveOrder, check_times, needs_acceptance}
use tx_trader.Live.Local.{changed, replaced}
use tx_trader.Live.Local.Snapshot.{snapshot-IsValid, check_pending-later}
use tx_trader.Live.Valid.{IsValid}
use tx_trader.Live.Ledger.{Source, AppliedEventLedger, ReductionDisposition, deduplicate}
use tx_trader.Live.Reduce.Transition.{Transition, broker_transition}
use tx_trader.Live.Reduce.TransitionFits.{Fits}
use tx_trader.Live.Reduce.TransitionValid.{broker_transition-Fits}
use tx_trader.Live.Reduce.WorkingChangeFits.{AllOn, check_order_event-eq_ok}
use tx_trader.Live.Reduce.DispatchValid.{le-later}
use tx_trader.Live.Reduce.Shared.{acceptance, is_confirmed_for}
use tx_trader.Live.Reduce.OrderEvent.{
  claims_acceptance, transition_changes, apply_transition, order_event_known, is_cancelled,
  is_cancellation, reduce_broker_order_event,
}

-- The acceptance that the reducers record is no later than the update.
pub acceptance_in_time :
    (accepted occurred : Option ℕ) (u received : ℕ)
    → is_after accepted u ≡ false
    → is_after occurred received ≡ false
    → ltb (later u received) (acceptance accepted occurred received) ≡ false
acceptance_in_time accepted occurred u received ha ho = ground arith

still_in_time :
    (accepted : Option ℕ) (u received : ℕ)
    → is_after accepted u ≡ false
    → is_after (replaced accepted accepted) (later u received) ≡ false
still_in_time accepted u received ha = ground arith

claims-eq-needs : (s : LiveOrderState) → claims_acceptance s ≡ needs_acceptance s
claims-eq-needs s = ground arith

accepted_in_time :
    (s : LiveOrderState) (accepted occurred : Option ℕ) (u received : ℕ)
    → is_after accepted u ≡ false
    → is_after occurred received ≡ false
    → check_times s
        (replaced
          (if claims_acceptance s then some (acceptance accepted occurred received) else accepted)
          accepted)
        (later u received)
      ≡ ok tt
unfolding check_times
accepted_in_time s accepted occurred u received ha ho = elim (Bool-cases (needs_acceptance s)) [
  | inl asks ↦
      rw (claims-eq-needs s) (rw asks (rw (acceptance_in_time accepted occurred u received ha ho)))
  | inr free ↦ rw (claims-eq-needs s) (rw free (rw (still_in_time accepted u received ha)))
]

-- What `check_times` has checked of an acceptance.
pub check_times-in_time :
    (s : LiveOrderState) (accepted : Option ℕ) (u : ℕ)
    → check_times s accepted u ≡ ok tt
    → is_after accepted u ≡ false
unfolding check_times
check_times-in_time s accepted u h =
    let (_, time) =
      >>-eq_ok (raise_if (needs_acceptance s && is_none accepted) Fault.acceptance_missing) _ h in
    raise_if-eq_ok _ Fault.accepted_after_update time

-- A transition that fits gives a valid order.
transition-IsValid :
    (g : Grid) (k : ℕ) (o : LiveOrder) (e : NormalizedBrokerOrderEvent) (t : Transition)
    → IsValid g k o
    → is_after e.occurred_at e.received_at ≡ false
    → Fits g k o t
    → IsValid g k (changed o (transition_changes o e t))
unfolding changed transition_changes
transition-IsValid g k o e t v time f =
    let exact =
      sub-OnLot default_prec k t.total_quantity o.filled_quantity f.total_on v.filled_on in
    record {
      total_on = f.total_on;
      filled_on = v.filled_on;
      remaining_on =
          rw exact
            (OnLot-sub default_prec k t.total_quantity o.filled_quantity f.total_on v.filled_on);
      total_pos = f.total_pos;
      parts = rw exact (omega (arith, f.no_less));
      within = omega (arith, f.no_more, v.within);
      average_good = v.average_good;
      limit_good = f.limit_good;
      priced = f.priced;
      averaged = v.averaged;
      versioned = omega arith;
      timed =
          accepted_in_time t.state o.accepted_at e.occurred_at o.updated_at e.received_at
            (check_times-in_time o.state o.accepted_at o.updated_at v.timed) time;
      targeted =
          check_pending-later o.intent o.updated_at _ t.pending
            (le-later o.updated_at e.received_at) f.targeted;
      bound_good = f.bound_good;
      bound_fits = f.bound_fits;
      progressed = rw exact f.progressed;
      rest_open = λ h. rw exact (f.rest_open h);
    }

transition_time :
    (o : LiveOrder) (e : NormalizedBrokerOrderEvent) (t : Transition)
    → o.updated_at ≤ (transition_changes o e t).updated_at
unfolding transition_changes
transition_time o e t = le-later o.updated_at e.received_at

apply_transition-IsValid :
    (g : Grid) (k : ℕ) (o : LiveOrder) (e : NormalizedBrokerOrderEvent) (l : AppliedEventLedger)
    (fp : ℕ) (t : Option Transition)
    → LotFits g k
    → IsValid g k o
    → is_after e.occurred_at e.received_at ≡ false
    → IfSome (Fits g k o) t
    → Returns (apply_transition g o e l fp t) (λ r. IsValid g k r.order)
unfolding apply_transition
apply_transition-IsValid g k o e l fp none f v time fits = v
apply_transition-IsValid g k o e l fp (some t) f v time fits =
    let next = transition-IsValid g k o e t v time fits in
    rw (snapshot-IsValid g k o (transition_changes o e t) f (transition_time o e t) next) next

order_event_known-IsValid :
    (g : Grid) (k : ℕ) (o : LiveOrder) (e : NormalizedBrokerOrderEvent) (l : AppliedEventLedger)
    (fp : ℕ) (d : Option ReductionDisposition)
    → LotFits g k
    → IsValid g k o
    → check_order_event g e ≡ ok tt
    → AllOn k e.decreased_quantity
    → Returns (order_event_known g o e l fp d) (λ r. IsValid g k r.order)
unfolding order_event_known
order_event_known-IsValid g k o e l fp (some d) f v c on = v
order_event_known-IsValid g k o e l fp none f v c on =
    let (good, shape, time) = check_order_event-eq_ok g e c in
    let fits = broker_transition-Fits g k o e v good shape on in
    Returns-if (λ r. IsValid g k r.order)
      (not (is_confirmed_for o e.correlation e.account_id e.instrument_id)) _ _ (λ _. v)
      λ _.
        Returns-if (λ r. IsValid g k r.order) (is_cancelled o.state && is_cancellation e.event_type)
          _ _ (λ _. v)
          (λ _. apply_transition-IsValid g k o e l fp (broker_transition o e) f v time fits)

-- A broker order event that its constructor accepts is always reduced for a valid order, if what
-- it decreases lies on the lot, and the order that comes out is valid.
pub reduce_broker_order_event-IsValid :
    (g : Grid) (k : ℕ) (digest : Evidence → ℕ) (o : LiveOrder) (e : NormalizedBrokerOrderEvent)
    (l : AppliedEventLedger)
    → LotFits g k
    → IsValid g k o
    → check_order_event g e ≡ ok tt
    → AllOn k e.decreased_quantity
    → Returns (reduce_broker_order_event g digest o e l) (λ r. IsValid g k r.order)
unfolding reduce_broker_order_event
reduce_broker_order_event-IsValid g k digest o e l f v c on =
    order_event_known-IsValid g k o e l (digest (order_payload e))
      (deduplicate l Source.broker_event e.event_id (digest (order_payload e))) f v c on
