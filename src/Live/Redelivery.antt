-- ===== src/Live/Redelivery.antt =====
-- Evidence is applied at most once: what the ledger holds is recognised, whatever the order.
use tx_trader.Common.{
  ap, ℕ, ◌≡◌, ◌≢◌, inl, inr, refl, Bool-cases, true, ◌&&◌, Option, none, some, ok, [], ◌∷◌, ◌++◌,
  arith, ◌==◌, if◌then◌else◌,
}
use tx_trader.Decimals.{Grid}
use tx_trader.Live.Contracts.{LiveFailureCode}
use tx_trader.Live.Events.{
  NormalizedBrokerOrderEvent, NormalizedBrokerFillEvent, Evidence, order_payload, fill_payload,
}
use tx_trader.Live.Order.{LiveOrder}
use tx_trader.Live.Ledger.{
  Source, source_eq, AppliedEvent, AppliedEventLedger, ReductionDisposition, ReductionResult, find,
  append, judge, deduplicate, record_event,
}
use tx_trader.Live.Reduce.Shared.{unchanged, conflict_code}
use tx_trader.Live.Reduce.OrderEvent.{
  apply_transition, order_event_known, reduce_broker_order_event,
}
use tx_trader.Live.Reduce.FillEvent.{apply_fill, fill_event_known, reduce_broker_fill_event}

source_eq_self : (s : Source) → source_eq s s ≡ true
unfolding source_eq
source_eq_self s = ground arith

eq_self : (n : ℕ) → (n == n) ≡ true
eq_self n = ground arith

-- An event that was not in the ledger is found once it has been recorded.
find-append_self :
    (s : Source) (id fp : ℕ) (l : AppliedEventLedger)
    → find s id l ≡ none
    → find s id (l ++ (record { source = s; event_id = id; fingerprint = fp } ∷ []))
      ≡ some (record { source = s; event_id = id; fingerprint = fp })
unfolding find
find-append_self s id fp [] h = rw (source_eq_self s) (rw (eq_self id))
find-append_self s id fp (e ∷ l) h = elim (Bool-cases (source_eq e.source s && e.event_id == id)) [
  | inl seen ↦ cc (rw seen at h)
  | inr other ↦ rw other (find-append_self s id fp l (rw other at h))
]

judge-none : (fp : ℕ) (m : Option AppliedEvent) → judge fp m ≡ none → m ≡ none
judge-none fp none h = refl
judge-none fp (some e) h = cc

judge-not_applied :
    (fp : ℕ) (m : Option AppliedEvent) → judge fp m ≢ some ReductionDisposition.applied
judge-not_applied fp none h = cc
judge-not_applied fp (some e) h = ground arith

-- Evidence that is new to a ledger is known once it is recorded: the same id is an exact duplicate
-- with the same fingerprint, and a conflict with another.
pub deduplicate-record_event :
    (l : AppliedEventLedger) (s : Source) (id fp fp' : ℕ)
    → deduplicate l s id fp ≡ none
    → deduplicate (record_event l s id fp) s id fp'
      ≡ some (
          if fp == fp'
          then ReductionDisposition.exact_duplicate
          else ReductionDisposition.event_conflict)
unfolding deduplicate record_event append
deduplicate-record_event l s id fp fp' h =
    rw (find-append_self s id fp l (judge-none fp (find s id l) h))

deduplicate-not_applied :
    (l : AppliedEventLedger) (s : Source) (id fp : ℕ)
    → deduplicate l s id fp ≢ some ReductionDisposition.applied
unfolding deduplicate
deduplicate-not_applied l s id fp = judge-not_applied fp (find s id l)

-- An order event is applied only if it was new, and it is then in the ledger.
order_event_applied :
    (g : Grid) (o : LiveOrder) (e : NormalizedBrokerOrderEvent) (l : AppliedEventLedger) (fp : ℕ)
    (d : Option ReductionDisposition) {r : ReductionResult}
    → d ≢ some ReductionDisposition.applied
    → order_event_known g o e l fp d ≡ ok r
    → r.disposition ≡ ReductionDisposition.applied
    → (d ≡ none) × (r.ledger ≡ record_event l Source.broker_event e.event_id fp)
unfolding order_event_known apply_transition
order_event_applied g o e l fp (some d) old h a = absurd (old (ground arith))
order_event_applied g o e l fp none old h a = ground arith

fill_event_applied :
    (g : Grid) (o : LiveOrder) (e : NormalizedBrokerFillEvent) (l : AppliedEventLedger) (fp : ℕ)
    (d : Option ReductionDisposition) {r : ReductionResult}
    → d ≢ some ReductionDisposition.applied
    → fill_event_known g o e l fp d ≡ ok r
    → r.disposition ≡ ReductionDisposition.applied
    → (d ≡ none) × (r.ledger ≡ record_event l Source.broker_event e.event_id fp)
unfolding fill_event_known apply_fill
fill_event_applied g o e l fp (some d) old h a = absurd (old (ground arith))
fill_event_applied g o e l fp none old h a = ground arith

-- The verdict on the same evidence id after an applied event, at any order.
redelivered :
    (l l' : AppliedEventLedger) (id fp fp' : ℕ)
    → deduplicate l Source.broker_event id fp ≡ none
    → l' ≡ record_event l Source.broker_event id fp
    → deduplicate l' Source.broker_event id fp'
      ≡ some (
          if fp == fp'
          then ReductionDisposition.exact_duplicate
          else ReductionDisposition.event_conflict)
redelivered l l' id fp fp' new e =
    rw e (deduplicate-record_event l Source.broker_event id fp fp' new)

same_verdict :
    (l l' : AppliedEventLedger) (id id' fp fp' : ℕ)
    → id' ≡ id
    → deduplicate l Source.broker_event id fp ≡ none
    → l' ≡ record_event l Source.broker_event id fp
    → fp' ≡ fp
    → deduplicate l' Source.broker_event id' fp' ≡ some ReductionDisposition.exact_duplicate
same_verdict l l' id id' fp fp' same_id new e same_fp =
    rw same_id (rw (redelivered l l' id fp fp' new e) (rw same_fp (rw (eq_self fp))))

other_verdict :
    (l l' : AppliedEventLedger) (id id' fp fp' : ℕ)
    → id' ≡ id
    → deduplicate l Source.broker_event id fp ≡ none
    → l' ≡ record_event l Source.broker_event id fp
    → fp' ≢ fp
    → deduplicate l' Source.broker_event id' fp' ≡ some ReductionDisposition.event_conflict
other_verdict l l' id id' fp fp' same_id new e differ_fp =
    rw same_id (rw (redelivered l l' id fp fp' new e) (ground arith))

order_event_seen :
    (g : Grid) (digest : Evidence → ℕ) (p : LiveOrder) (e : NormalizedBrokerOrderEvent)
    (l : AppliedEventLedger) (d : ReductionDisposition)
    → deduplicate l Source.broker_event e.event_id (digest (order_payload e)) ≡ some d
    → reduce_broker_order_event g digest p e l ≡ ok (unchanged p l d (conflict_code d))
unfolding reduce_broker_order_event order_event_known
order_event_seen g digest p e l d h = rw h

fill_event_seen :
    (g : Grid) (digest : Evidence → ℕ) (p : LiveOrder) (e : NormalizedBrokerFillEvent)
    (l : AppliedEventLedger) (d : ReductionDisposition)
    → deduplicate l Source.broker_event e.event_id (digest (fill_payload e)) ≡ some d
    → reduce_broker_fill_event g digest p e l ≡ ok (unchanged p l d (conflict_code d))
unfolding reduce_broker_fill_event fill_event_known
fill_event_seen g digest p e l d h = rw h

-- An order event that was applied is applied at most once: an event with the same payload,
-- reduced for any order with the ledger of the result, is an exact duplicate and changes nothing.
pub order_event_redelivered :
    (g : Grid) (digest : Evidence → ℕ) (o p : LiveOrder) (e e' : NormalizedBrokerOrderEvent)
    (l : AppliedEventLedger) {r : ReductionResult}
    → reduce_broker_order_event g digest o e l ≡ ok r
    → r.disposition ≡ ReductionDisposition.applied
    → order_payload e' ≡ order_payload e
    → reduce_broker_order_event g digest p e' r.ledger
      ≡ ok (unchanged p r.ledger ReductionDisposition.exact_duplicate none)
unfolding reduce_broker_order_event
order_event_redelivered g digest o p e e' l {r = r} h a same_payload =
    let fp = digest (order_payload e) in
    let (new, led) =
      order_event_applied g o e l fp (deduplicate l Source.broker_event e.event_id fp)
        (deduplicate-not_applied l Source.broker_event e.event_id fp) h a in
    let same_id : e'.event_id ≡ e.event_id = cc in
    order_event_seen g digest p e' r.ledger ReductionDisposition.exact_duplicate (
      same_verdict l r.ledger e.event_id e'.event_id fp (digest (order_payload e')) same_id new led
        (ap digest same_payload))

-- After an order event was applied, an event with the same id and another fingerprint is a
-- conflict: for any order, the order and the ledger stay as they are.
pub order_event_conflict :
    (g : Grid) (digest : Evidence → ℕ) (o p : LiveOrder) (e e' : NormalizedBrokerOrderEvent)
    (l : AppliedEventLedger) {r : ReductionResult}
    → reduce_broker_order_event g digest o e l ≡ ok r
    → r.disposition ≡ ReductionDisposition.applied
    → e'.event_id ≡ e.event_id
    → digest (order_payload e') ≢ digest (order_payload e)
    → reduce_broker_order_event g digest p e' r.ledger
      ≡ ok (
          unchanged p r.ledger ReductionDisposition.event_conflict
            (some LiveFailureCode.correlation_conflict))
unfolding reduce_broker_order_event
order_event_conflict g digest o p e e' l {r = r} h a same_id other =
    let fp = digest (order_payload e) in
    let (new, led) =
      order_event_applied g o e l fp (deduplicate l Source.broker_event e.event_id fp)
        (deduplicate-not_applied l Source.broker_event e.event_id fp) h a in
    order_event_seen g digest p e' r.ledger ReductionDisposition.event_conflict (
      other_verdict l r.ledger e.event_id e'.event_id fp (digest (order_payload e')) same_id new led
        other)

-- A fill event that was applied is applied at most once: an event with the same payload, reduced
-- for any order with the ledger of the result, is an exact duplicate and fills nothing.
pub fill_event_redelivered :
    (g : Grid) (digest : Evidence → ℕ) (o p : LiveOrder) (e e' : NormalizedBrokerFillEvent)
    (l : AppliedEventLedger) {r : ReductionResult}
    → reduce_broker_fill_event g digest o e l ≡ ok r
    → r.disposition ≡ ReductionDisposition.applied
    → fill_payload e' ≡ fill_payload e
    → reduce_broker_fill_event g digest p e' r.ledger
      ≡ ok (unchanged p r.ledger ReductionDisposition.exact_duplicate none)
unfolding reduce_broker_fill_event
fill_event_redelivered g digest o p e e' l {r = r} h a same_payload =
    let fp = digest (fill_payload e) in
    let (new, led) =
      fill_event_applied g o e l fp (deduplicate l Source.broker_event e.event_id fp)
        (deduplicate-not_applied l Source.broker_event e.event_id fp) h a in
    let same_id : e'.event_id ≡ e.event_id = cc in
    fill_event_seen g digest p e' r.ledger ReductionDisposition.exact_duplicate (
      same_verdict l r.ledger e.event_id e'.event_id fp (digest (fill_payload e')) same_id new led
        (ap digest same_payload))
