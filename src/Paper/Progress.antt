-- ===== src/Paper/Progress.antt =====
-- The life of a paper order: snapshots that follow one another make progress, and there are at most
-- as many as the order has units.
use tx_trader.Common.{
  ℕ, zero, suc, ◌+◌, ◌≤◌, ◌<◌, ◌≡◌, ◌≢◌, refl, sym, ◌∙◌, true, not, ok, raise_if, >>-eq_ok, arith,
  ◌==◌, differ, is_none, if◌then◌else◌,
}
use mathlib.Core.Path.{subst}
use tx_trader.Decimals.{add}
use tx_trader.Paper.Contracts.{
  OrderStatus, PaperFault, OrderIntent, PaperOrder, check_order_intent, check_paper_order,
  check_status, check_optional_price, is_closed,
}
use tx_trader.Paper.Transition.{
  can_transition, is_partial, is_cancelled_status, validate_order_transition,
}
use tx_trader.Paper.Followed.{Followed, validate_order_transition-Followed}

-- Units of progress: what is filled, and one for a cancellation.
abbrev pub units : OrderStatus → ℕ → ℕ
units s done = if is_cancelled_status s then suc done else done

advance_units :
    (s s' : OrderStatus) (quantity done done' rest rest' : ℕ)
    → can_transition s s' ≡ true
    → check_status s quantity done rest ≡ ok tt
    → check_status s' quantity done' rest' ≡ ok tt
    → 0 < quantity
    → done ≤ done'
    → (is_partial s' ≡ true → done < done')
    → (is_cancelled_status s' ≡ true → done' ≡ done)
    → (suc (units s done) ≤ units s' done') × (units s' done' ≤ quantity)
unfolding can_transition check_status
advance_units OrderStatus.accepted OrderStatus.partially_filled q d d' r r' may c c' pos le add_
      keep =
    let more = add_ refl in ground arith
advance_units OrderStatus.accepted OrderStatus.filled q d d' r r' may c c' pos le add_ keep =
    ground arith
advance_units OrderStatus.accepted OrderStatus.cancelled q d d' r r' may c c' pos le add_ keep =
    let same_done = keep refl in ground arith
advance_units OrderStatus.partially_filled OrderStatus.partially_filled q d d' r r' may c c' pos le
      add_ keep =
    let more = add_ refl in ground arith
advance_units OrderStatus.partially_filled OrderStatus.filled q d d' r r' may c c' pos le add_
      keep =
    ground arith
advance_units OrderStatus.partially_filled OrderStatus.cancelled q d d' r r' may c c' pos le add_
      keep =
    let same_done = keep refl in ground arith
advance_units _ _ q d d' r r' may c c' pos le add_ keep = cc

check_paper_order-status :
    (prec : ℕ) (o : PaperOrder)
    → check_paper_order prec o ≡ ok tt
    → check_status o.status o.intent.quantity o.filled_quantity o.remaining_quantity ≡ ok tt
unfolding check_paper_order
check_paper_order-status prec o h =
    let (price, h1) = >>-eq_ok (check_optional_price o.average_fill_price) _ h in
    let (parts, h2) =
      >>-eq_ok
        (raise_if (not (add prec o.filled_quantity o.remaining_quantity == o.intent.quantity))
          PaperFault.parts_differ)
        _ h1 in
    let (average, h3) =
      >>-eq_ok
        (raise_if (differ (o.filled_quantity == 0) (is_none o.average_fill_price))
          PaperFault.average_mismatch)
        _ h2 in
    (>>-eq_ok (check_status o.status o.intent.quantity o.filled_quantity o.remaining_quantity) _
      h3).0

status_for :
    (prec : ℕ) (o : PaperOrder) (i : OrderIntent)
    → o.intent ≡ i
    → check_paper_order prec o ≡ ok tt
    → check_status o.status i.quantity o.filled_quantity o.remaining_quantity ≡ ok tt
status_for prec o i e h =
    subst (λ j. check_status o.status j.quantity o.filled_quantity o.remaining_quantity ≡ ok tt) e
      (check_paper_order-status prec o h)

check_order_intent-pos : (i : OrderIntent) → check_order_intent i ≡ ok tt → 0 < i.quantity
unfolding check_order_intent
check_order_intent-pos i h = ground arith

-- Snapshots that have passed their checks, each validated after the one before it.
pub data Life (prec : ℕ) : ℕ → PaperOrder → PaperOrder → Type 0 where
  here : {p : PaperOrder} → Life prec 0 p p
  next :
      {n : ℕ} {p q r : PaperOrder}
      → Life prec n p q
      → check_paper_order prec r ≡ ok tt
      → validate_order_transition q r ≡ ok tt
      → Life prec (suc n) p r

-- What `n` transitions from `p` to `q` have kept and made.
pub record Progressed (n : ℕ) (p q : PaperOrder) : Type 0 where
  pub same_run : q.paper_run_id ≡ p.paper_run_id
  pub same_order : q.paper_order_id ≡ p.paper_order_id
  pub same_intent : q.intent ≡ p.intent
  pub same_acceptance : q.accepted_at ≡ p.accepted_at
  pub later : p.updated_at ≤ q.updated_at
  pub filled_more : p.filled_quantity ≤ q.filled_quantity
  pub remaining_less : q.remaining_quantity ≤ p.remaining_quantity
  pub advanced : n + units p.status p.filled_quantity ≤ units q.status q.filled_quantity
  pub bounded : n ≤ p.intent.quantity

Progressed-next :
    (prec n : ℕ) (p q r : PaperOrder)
    → 0 < p.intent.quantity
    → check_paper_order prec q ≡ ok tt
    → check_paper_order prec r ≡ ok tt
    → Progressed n p q
    → Followed q r
    → Progressed (suc n) p r
Progressed-next prec n p q r pos vq vr l f =
    let at_q = status_for prec q p.intent l.same_intent vq in
    let kept : r.intent ≡ p.intent = sym f.same_intent ∙ l.same_intent in
    let at_r = status_for prec r p.intent kept vr in
    let (more, within) =
      advance_units q.status r.status p.intent.quantity q.filled_quantity r.filled_quantity
        q.remaining_quantity r.remaining_quantity f.allowed at_q at_r pos f.filled_more
        f.partial_fills f.cancel_keeps in
    record {
      same_run = sym f.same_run ∙ l.same_run;
      same_order = sym f.same_order ∙ l.same_order;
      same_intent = kept;
      same_acceptance = sym f.same_acceptance ∙ l.same_acceptance;
      later = omega (arith, f.later, l.later);
      filled_more = omega (arith, f.filled_more, l.filled_more);
      remaining_less = omega (arith, f.remaining_less, l.remaining_less);
      advanced = omega (arith, l.advanced, more);
      bounded = omega (arith, l.advanced, more, within);
    }

Life-valid :
    (prec n : ℕ) {p q : PaperOrder}
    → check_paper_order prec p ≡ ok tt
    → Life prec n p q
    → check_paper_order prec q ≡ ok tt
Life-valid prec zero v Life.here = v
Life-valid prec (suc n) v (Life.next l c f) = c

-- Any sequence of validated snapshots of a paper order, from one whose intent and own checks pass
-- under a decimal context of some precision, keeps the run, the order, the intent and the
-- acceptance. The time and the filled quantity never go back and the remaining quantity never
-- grows. There are at most as many transitions as the intent's quantity has units.
pub Life-Progressed :
    (prec n : ℕ) {p q : PaperOrder}
    → check_order_intent p.intent ≡ ok tt
    → check_paper_order prec p ≡ ok tt
    → Life prec n p q
    → Progressed n p q
Life-Progressed prec n i v Life.here = record {
  same_run = refl;
  same_order = refl;
  same_intent = refl;
  same_acceptance = refl;
  later = omega arith;
  filled_more = omega arith;
  remaining_less = omega arith;
  advanced = omega arith;
  bounded = omega arith;
}
Life-Progressed prec _ {p = p} i v (Life.next {n = n} {q = q} {r = r} l c f) =
    Progressed-next prec n p q r (check_order_intent-pos p.intent i) (Life-valid prec n v l) c
      (Life-Progressed prec n i v l) (validate_order_transition-Followed q r f)

-- A closed paper order has no successor: no snapshot is a valid transition from it.
pub closed_is_final :
    (p c : PaperOrder) → is_closed p.status ≡ true → validate_order_transition p c ≢ ok tt
unfolding can_transition
closed_is_final p c closed h =
    let f = validate_order_transition-Followed p c h in ground (arith, f.allowed)
