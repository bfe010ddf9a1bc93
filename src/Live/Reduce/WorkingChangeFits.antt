-- ===== src/Live/Reduce/WorkingChangeFits.antt =====
-- A working change that the bound command calls for fits the order.
use tx_trader.Common.{
  raise_if, >>-eq_ok, raise_if-eq_ok, IfSome, IfSome-if, ℕ, ◌-◌, ◌≤◌, ◌<◌, ◌≡◌, refl, Bool, true,
  false, not, Option, none, some, ok, arith, is_some, is_none, if◌then◌else◌, ltb, ◌==◌, ◌&&◌, ◌||◌,
  differ,
}
use tx_trader.Decimals.{Grid, sub, default_prec}
use tx_trader.Decimals.Exact.{OnLot, OnLot-sub, sub-OnLot}
use tx_trader.Live.Contracts.{
  Fault, LiveOrderState, LiveOrderType, LiveCommand, BrokerOrderEventType, PendingCommandBinding,
  is_terminal, check_optional, check_price, check_command, check_positive,
}
use tx_trader.Live.Events.{
  NormalizedBrokerOrderEvent, matches_working_change, decreases_to, is_quantity_change,
}
use tx_trader.Live.Order.{LiveOrder, check_pending, check_binding_state, check_progress}
use tx_trader.Live.Local.{replaced}
use tx_trader.Live.Valid.{IsValid, check_positive-pos}
use tx_trader.Live.Reduce.Transition.{open_state, new_total, settle, working_change}
use tx_trader.Live.Events.{check_order_event, check_sequences, check_shape, is_after}
use tx_trader.Live.Reduce.TransitionFits.{Fits}

not-false : (b : Bool) → not b ≡ false → b ≡ true
not-false b h = ground arith

-- What a broker event may say of quantities: each lies on the lot.
abbrev pub AllOn : ℕ → Option ℕ → Type 0
AllOn k none = Unit {0}
AllOn k (some q) = OnLot default_prec k q

-- The new total is known, positive and on the lot.
abbrev Known : ℕ → ℕ → Option ℕ → Type 0
Known k total none = ⊥
Known k total (some t) = OnLot default_prec k t × (0 < t) × (t ≤ total)

decreases_to-eq :
    (x n total dec : ℕ)
    → decreases_to x n total (some dec) ≡ true
    → (dec ≤ total) × (sub default_prec total dec ≡ n)
unfolding decreases_to
decreases_to-eq x n total dec h = ground arith

decreased-Known :
    (g : Grid) (k x n total : ℕ) (dec : Option ℕ)
    → OnLot default_prec k total
    → AllOn k dec
    → 0 < n
    → decreases_to x n total dec ≡ true
    → Known k total (new_total total dec)
unfolding new_total decreases_to
decreased-Known g k x n total none on d pos h = cc
decreased-Known g k x n total (some dec) on d pos h =
    let (fits, target) = decreases_to-eq x n total dec h in
    let exact = sub-OnLot default_prec k total dec on d in
    let not_more : ltb total dec ≡ false = ground arith in
    rw not_more (rw exact (OnLot-sub default_prec k total dec on d, omega arith, omega arith))

decrease_target :
    (g : Grid) (c o x n t : ℕ)
    → check_command g (LiveCommand.decrease_order c o x n t) ≡ ok tt
    → 0 < n
unfolding check_command
decrease_target g c o x n t h =
    let (_, rest) = >>-eq_ok (check_positive g x) _ h in
    let (positive, _) = >>-eq_ok (check_positive g n) _ rest in check_positive-pos g n positive

-- A matched change leaves a known total.
matched-Known :
    (g : Grid) (k total : ℕ) (c : LiveCommand) (ty : BrokerOrderEventType) (price dec : Option ℕ)
    → OnLot default_prec k total
    → 0 < total
    → AllOn k dec
    → check_command g c ≡ ok tt
    → differ (is_quantity_change ty) (is_some dec) ≡ false
    → matches_working_change c ty price dec total ≡ true
    → Known k total (new_total total dec)
unfolding matches_working_change new_total
matched-Known g k total (LiveCommand.amend_order c o p t) BrokerOrderEventType.price_amended price
      none on pos d good shape h =
    (on, pos, omega arith)
matched-Known g k total (LiveCommand.amend_order c o p t) BrokerOrderEventType.price_amended price
      (some q) on pos d good shape h =
    cc
matched-Known g k total (LiveCommand.decrease_order c o x n t)
      BrokerOrderEventType.quantity_decreased price dec on pos d good shape h =
    decreased-Known g k x n total dec on d (decrease_target g c o x n t good) h
matched-Known g k total _ _ price dec on pos d good shape h = cc

-- The facts of the state that a working change leaves.
settled_facts :
    (total filled : ℕ)
    → filled ≤ total
    → let s = if total == filled then LiveOrderState.filled else open_state filled in
      (check_binding_state s none ≡ ok tt)
      × (check_progress s total filled (total - filled) ≡ ok tt)
      × (is_terminal s ≡ false → 0 < total - filled)
unfolding check_binding_state check_progress
settled_facts total filled h = (ground arith, ground arith, ground arith)

replaced_twice : (p w : Option ℕ) → replaced (replaced p w) w ≡ replaced p w
replaced_twice none none = refl
replaced_twice none (some w) = refl
replaced_twice (some p) w = refl

check_pending-none : (o : LiveOrder) → check_pending o.intent o.updated_at none ≡ ok tt
unfolding check_pending
check_pending-none o = refl

settle-Fits :
    (g : Grid) (k : ℕ) (o : LiveOrder) (price : Option ℕ) (t : Option ℕ)
    → IsValid g k o
    → check_optional g (replaced price o.working_limit_price) ≡ ok tt
    → check_price o.intent.order_type (replaced price o.working_limit_price) ≡ ok tt
    → Known k o.total_quantity t
    → IfSome (Fits g k o) (settle o price t)
unfolding settle
settle-Fits g k o price none v good priced known = tt
settle-Fits g k o price (some t) v good priced known =
    IfSome-if (Fits g k o) (ltb t o.filled_quantity || ltb o.total_quantity t) none _ (λ _. tt)
      λ enough.
        let (fits, progressed, rest) = settled_facts t o.filled_quantity (ground arith) in
        record {
          total_on = known.0;
          total_pos = known.1;
          no_less = ground arith;
          no_more = known.2;
          limit_good = rw (replaced_twice price o.working_limit_price) good;
          priced = rw (replaced_twice price o.working_limit_price) priced;
          targeted = check_pending-none o;
          bound_good = refl;
          bound_fits = fits;
          progressed = progressed;
          rest_open = rest;
        }

-- The price that a working change leaves is admissible, and present for a limit order alone.
price_facts :
    (g : Grid) (ty : LiveOrderType) (price w : Option ℕ)
    → check_optional g price ≡ ok tt
    → check_optional g w ≡ ok tt
    → check_price ty w ≡ ok tt
    → (is_some price && is_none w) ≡ false
    → (check_optional g (replaced price w) ≡ ok tt) × (check_price ty (replaced price w) ≡ ok tt)
unfolding check_price
price_facts g ty none none good old priced h = (old, priced)
price_facts g ty none (some w) good old priced h = (old, priced)
price_facts g ty (some p) none good old priced h = cc
price_facts g LiveOrderType.market (some p) (some w) good old priced h = cc
price_facts g LiveOrderType.limit (some p) (some w) good old priced h = (good, refl)

pub check_order_event-eq_ok :
    (g : Grid) (e : NormalizedBrokerOrderEvent)
    → check_order_event g e ≡ ok tt
    → (check_optional g e.new_limit_price ≡ ok tt)
      × (differ (is_quantity_change e.event_type) (is_some e.decreased_quantity) ≡ false)
      × (is_after e.occurred_at e.received_at ≡ false)
unfolding check_order_event check_shape
check_order_event-eq_ok g e h =
    let (_, h1) =
      >>-eq_ok
        (check_sequences e.broker_session_generation e.adapter_received_sequence e.correlation) _
        h in
    let (time, h2) =
      >>-eq_ok (raise_if (is_after e.occurred_at e.received_at) Fault.occurred_after_receipt) _
        h1 in
    let (_, h3) = >>-eq_ok (check_optional g e.decreased_quantity) _ h2 in
    let (price, shape) = >>-eq_ok (check_optional g e.new_limit_price) _ h3 in
    let (quantity, _) =
      >>-eq_ok
        (raise_if (differ (is_quantity_change e.event_type) (is_some e.decreased_quantity))
          Fault.quantity_change_mismatch)
        _ shape in
    (
      price,
      raise_if-eq_ok _ Fault.quantity_change_mismatch quantity,
      raise_if-eq_ok _ Fault.occurred_after_receipt time,
    )

pub working_change-Fits :
    (g : Grid) (k : ℕ) (o : LiveOrder) (e : NormalizedBrokerOrderEvent)
    (p : Option PendingCommandBinding)
    → IsValid g k o
    → check_optional g e.new_limit_price ≡ ok tt
    → differ (is_quantity_change e.event_type) (is_some e.decreased_quantity) ≡ false
    → AllOn k e.decreased_quantity
    → o.pending_command ≡ p
    → IfSome (Fits g k o) (working_change o e p)
unfolding working_change
working_change-Fits g k o e none v good shape on bound = tt
working_change-Fits g k o e (some b) v good shape on bound =
    IfSome-if (Fits g k o)
      (not (
        matches_working_change b.command e.event_type e.new_limit_price e.decreased_quantity
          o.total_quantity))
      none _ (λ _. tt)
      λ matched.
        IfSome-if (Fits g k o) (is_some e.new_limit_price && is_none o.working_limit_price) none _
          (λ _. tt)
          λ priced.
            let (limit, fits) =
              price_facts g o.intent.order_type e.new_limit_price o.working_limit_price good
                v.limit_good v.priced priced in
            settle-Fits g k o e.new_limit_price (new_total o.total_quantity e.decreased_quantity) v
              limit fits
              (matched-Known g k o.total_quantity b.command e.event_type e.new_limit_price
                e.decreased_quantity v.total_on v.total_pos on (rw bound at v.bound_good) shape
                (not-false _ matched))
