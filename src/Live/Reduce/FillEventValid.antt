-- ===== src/Live/Reduce/FillEventValid.antt =====
-- A well-formed fill event is always reduced, and the order that comes out is valid.
use tx_trader.Common.{
  Returns-if, ℕ, ◌+◌, ◌-◌, ◌≤◌, ◌≡◌, refl, false, not, Option, none, some, ok, arith, inl, inr,
  Returns, later, ltb, ◌&&◌, is_none,
}
use tx_trader.Decimals.{Grid, default_prec}
use tx_trader.Decimals.Exact.{OnLot-sub}
use tx_trader.Decimals.Bounds.{LotFits}
use tx_trader.Live.Events.{Evidence}
use tx_trader.Live.Order.{LiveOrder}
use tx_trader.Live.Local.{Changes, changed}
use tx_trader.Live.Local.Snapshot.{snapshot-IsValid, check_pending-later}
use tx_trader.Live.Valid.{IsValid}
use tx_trader.Live.Ledger.{
  Source, AppliedEventLedger, ReductionDisposition, ReductionResult, deduplicate,
}
use tx_trader.Live.Reduce.DispatchValid.{le-later}
use tx_trader.Live.Reduce.Shared.{acceptance, is_confirmed_for}
use tx_trader.Common.{◌||◌, ◌⊎◌}
use tx_trader.Decimals.Exact.{OnLot}
use tx_trader.Live.Contracts.{check_positive, side_eq}
use tx_trader.Live.Events.{NormalizedBrokerFillEvent, check_fill_event, fill_payload}
use tx_trader.Live.Valid.{check_positive-pos, check_optional-some}
use tx_trader.Live.Reduce.Transition.{is_closed_for_fills}
use tx_trader.Live.Reduce.OrderEventValid.{acceptance_in_time, check_times-in_time}
use tx_trader.Live.Reduce.Shared.{is_confirmed_for}
use tx_trader.Live.Reduce.FillEvent.{
  average_after, fill_changes, fill_record, fill_of, apply_fill, fill_event_known,
  reduce_broker_fill_event, first_id,
}
use tx_trader.Live.Reduce.FillFits.{
  check_fill_event-eq_ok, state_after_fill, bound_after_fill, after_fill-fits, after_fill-progress,
  after_fill-open, bound_after_fill-targeted, filled_exact, accepted_good,
}

-- The order after a fill of `q`, with the exact sums.
abbrev filled_changes : Grid → LiveOrder → NormalizedBrokerFillEvent → ℕ → ℕ → Changes
filled_changes g o e filled rest = record {
  state = state_after_fill o.state rest;
  updated_at = later o.updated_at e.received_at;
  total_quantity = none;
  filled_quantity = some filled;
  remaining_quantity = some rest;
  average_fill_price = some (average_after g o e);
  working_limit_price = none;
  accepted_at = some (acceptance o.accepted_at e.occurred_at e.received_at);
  pending_command = bound_after_fill o.state rest o.pending_command;
}

fill_changes-exact :
    (g : Grid) (k : ℕ) (o : LiveOrder) (e : NormalizedBrokerFillEvent)
    → IsValid g k o
    → OnLot default_prec k e.quantity
    → e.quantity ≤ o.remaining_quantity
    → fill_changes g o e
      ≡ filled_changes g o e
          (o.filled_quantity + e.quantity)
          (o.total_quantity - (o.filled_quantity + e.quantity))
unfolding fill_changes state_after_fill bound_after_fill
fill_changes-exact g k o e v on h =
    let (_, sum, rest) = filled_exact g k o e.quantity v on h in rw sum (rw rest)

fill-IsValid :
    (g : Grid) (k : ℕ) (o : LiveOrder) (e : NormalizedBrokerFillEvent)
    → IsValid g k o
    → check_fill_event g e ≡ ok tt
    → OnLot default_prec k e.quantity
    → e.quantity ≤ o.remaining_quantity
    → is_closed_for_fills o.state ≡ false
    → check_positive g (average_after g o e) ≡ ok tt
    → IsValid g k (
        changed o (
          filled_changes g o e
            (o.filled_quantity + e.quantity)
            (o.total_quantity - (o.filled_quantity + e.quantity))))
unfolding changed
fill-IsValid g k o e v c on h closed average =
    let (quantity, _, _, time) = check_fill_event-eq_ok g e c in
    let positive = check_positive-pos g e.quantity quantity in
    let (sum, _, _) = filled_exact g k o e.quantity v on h in
    let filled = o.filled_quantity + e.quantity in
    let rest = o.total_quantity - filled in
    let t = later o.updated_at e.received_at in
    let held =
      bound_after_fill-targeted g o t rest o.pending_command
        (check_pending-later o.intent o.updated_at t o.pending_command
          (le-later o.updated_at e.received_at) v.targeted)
        v.bound_good in
    record {
      total_on = v.total_on;
      filled_on = sum;
      remaining_on = OnLot-sub default_prec k o.total_quantity filled v.total_on sum;
      total_pos = v.total_pos;
      parts = omega (arith, v.parts);
      within = v.within;
      average_good = check_optional-some g (average_after g o e) average;
      limit_good = v.limit_good;
      priced = v.priced;
      averaged = ground (arith, positive);
      versioned = omega arith;
      timed = accepted_good _ _ t (
          acceptance_in_time o.accepted_at e.occurred_at o.updated_at e.received_at
            (check_times-in_time o.state o.accepted_at o.updated_at v.timed) time);
      targeted = held.0;
      bound_good = held.1;
      bound_fits = after_fill-fits o.state rest o.pending_command v.bound_fits closed;
      progressed =
          after_fill-progress o.state o.total_quantity filled rest (omega (arith, positive))
            (omega (arith, v.parts));
      rest_open = after_fill-open o.state rest;
    }

-- The event has been applied: its quantity is filled, the total is kept, and the fill is recorded.
abbrev pub IsApplied : LiveOrder → NormalizedBrokerFillEvent → ReductionResult → Type 0
IsApplied o e r =
    (r.disposition ≡ ReductionDisposition.applied)
    × (r.order.filled_quantity ≡ o.filled_quantity + e.quantity)
    × (r.order.total_quantity ≡ o.total_quantity)
    × (id : ℕ) × (r.fill ≡ some (fill_of o e id))

-- What a fill event does: it is applied, or the order stays as it is and nothing is recorded.
pub record FillOutcome (g : Grid) (k : ℕ) (o : LiveOrder) (e : NormalizedBrokerFillEvent)
    (r : ReductionResult) : Type 0 where
  pub valid : IsValid g k r.order
  pub effect : IsApplied o e r ⊎ ((r.order ≡ o) × (r.fill ≡ none))

fill_record-ok :
    (g : Grid) (o : LiveOrder) (e : NormalizedBrokerFillEvent) (a b : Option ℕ)
    → check_positive g e.quantity ≡ ok tt
    → check_positive g e.execution_price ≡ ok tt
    → (is_none a && is_none b) ≡ false
    → (id : ℕ) × (fill_record g o e (first_id a b) ≡ ok (fill_of o e id))
unfolding fill_record
fill_record-ok g o e none none q p id = cc
fill_record-ok g o e none (some b) q p id = (b, rw q (rw p))
fill_record-ok g o e (some a) b q p id = (a, rw q (rw p))

apply_fill-FillOutcome :
    (g : Grid) (k : ℕ) (o : LiveOrder) (e : NormalizedBrokerFillEvent) (l : AppliedEventLedger)
    (fp : ℕ)
    → LotFits g k
    → IsValid g k o
    → check_fill_event g e ≡ ok tt
    → OnLot default_prec k e.quantity
    → e.quantity ≤ o.remaining_quantity
    → is_closed_for_fills o.state ≡ false
    → check_positive g (average_after g o e) ≡ ok tt
    → Returns (apply_fill g o e l fp) (λ r. FillOutcome g k o e r)
unfolding apply_fill changed
apply_fill-FillOutcome g k o e l fp f v c on h closed average =
    let filled = o.filled_quantity + e.quantity in
    let changes = filled_changes g o e filled (o.total_quantity - filled) in
    let valid = fill-IsValid g k o e v c on h closed average in
    let (quantity, price, id, _) = check_fill_event-eq_ok g e c in
    let (fill_id, made) =
      fill_record-ok g o e e.correlation.broker_fill_id e.correlation.execution_no quantity price
        id in
    rw (fill_changes-exact g k o e v on h) (
      rw (snapshot-IsValid g k o changes f (le-later o.updated_at e.received_at) valid)
        (rw made (record { valid = valid; effect = inl (refl, refl, refl, fill_id, refl) })))

has_room :
    (o : LiveOrder) (q : ℕ)
    → (is_closed_for_fills o.state || ltb o.remaining_quantity q) ≡ false
    → (q ≤ o.remaining_quantity) × (is_closed_for_fills o.state ≡ false)
has_room o q h = ground arith

fill_event_known-FillOutcome :
    (g : Grid) (k : ℕ) (o : LiveOrder) (e : NormalizedBrokerFillEvent) (l : AppliedEventLedger)
    (fp : ℕ) (d : Option ReductionDisposition)
    → LotFits g k
    → IsValid g k o
    → check_fill_event g e ≡ ok tt
    → OnLot default_prec k e.quantity
    → check_positive g (average_after g o e) ≡ ok tt
    → Returns (fill_event_known g o e l fp d) (λ r. FillOutcome g k o e r)
unfolding fill_event_known
fill_event_known-FillOutcome g k o e l fp (some d) f v c on average = record {
  valid = v;
  effect = inr (refl, refl);
}
fill_event_known-FillOutcome g k o e l fp none f v c on average =
    Returns-if (λ r. FillOutcome g k o e r)
      (not (is_confirmed_for o e.correlation e.account_id e.instrument_id)
        || not (side_eq e.side o.intent.side))
      _ _ (λ _. record { valid = v; effect = inr (refl, refl) })
      λ _.
        Returns-if (λ r. FillOutcome g k o e r)
          (is_closed_for_fills o.state || ltb o.remaining_quantity e.quantity) _ _
          (λ _. record { valid = v; effect = inr (refl, refl) })
          λ room.
            let (fits, closed) = has_room o e.quantity room in
            apply_fill-FillOutcome g k o e l fp f v c on fits closed average

-- A fill event that its constructor accepts is always reduced for a valid order, if its quantity
-- lies on the lot and the new average price is an admissible positive Decimal. The order that comes
-- out is valid. Either the fill is applied: its quantity is filled, the total is kept, and the fill
-- is recorded as reported; or the order stays as it is and no fill is recorded.
pub reduce_broker_fill_event-FillOutcome :
    (g : Grid) (k : ℕ) (digest : Evidence → ℕ) (o : LiveOrder) (e : NormalizedBrokerFillEvent)
    (l : AppliedEventLedger)
    → LotFits g k
    → IsValid g k o
    → check_fill_event g e ≡ ok tt
    → OnLot default_prec k e.quantity
    → check_positive g (average_after g o e) ≡ ok tt
    → Returns (reduce_broker_fill_event g digest o e l) (λ r. FillOutcome g k o e r)
unfolding reduce_broker_fill_event
reduce_broker_fill_event-FillOutcome g k digest o e l f v c on average =
    fill_event_known-FillOutcome g k o e l (digest (fill_payload e))
      (deduplicate l Source.broker_event e.event_id (digest (fill_payload e))) f v c on average
