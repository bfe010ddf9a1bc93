-- ===== src/Paper/Broker/Liquidity.antt =====
-- The fills of one quote take no more from a side of the book than it offers.
use tx_trader.Common.{
  ℕ, ◌+◌, ◌^◌, ◌≤◌, ◌<◌, ◌≡◌, refl, sym, ap, ◌∙◌, ◌||◌, not, Option, none, some, List, [], ◌∷◌,
  Outcome, ok, raise, Ensures, Ensures->>=, Ensures-bind, Ensures-if, Ensures-map, Ensures-eq_ok,
  ◌==◌, or_else, Dict, get, eq_nat, eq_pair, eq_triple, ℤ, arith,
}
use tx_trader.Decimals.{add, sub}
use tx_trader.Paper.Contracts.{PaperOrder, is_closed}
use tx_trader.Paper.Position.{PositionFault, PaperFill, PaperPosition, check_paper_fill}
use tx_trader.Paper.Matching.{QuoteTop, MatchSkipReason}
use tx_trader.Paper.Policies.{PolicyFault, SlippageAssessment, FeeAssessment}
use tx_trader.Paper.Events.{PaperEventType, PaperEventPayload}
use tx_trader.Paper.Broker.State.{MarketDataEnvelope, BrokerFault, within, Broker}
use tx_trader.Paper.Broker.Commands.{matching_prec, make_event}
use tx_trader.Paper.Broker.Batch.{Batch, capacity_of, causal_time, is_ineligible}
use tx_trader.Paper.Broker.Fills.{fill_of, event_type_after, stage_fill, book_fill}
use tx_trader.Paper.Broker.Matches.{
  fill_charged, fill_quantity, fill_limited, fill_priced, fill_available, fill_crossed, match_order,
  match_found, stage_matches,
}
use tx_trader.Paper.Broker.Sides.{
  FitsDigits, Conserves, Conserves-refl, Conserves-trans, Conserves-skip, skip_policy-Conserves,
  taken-++, fill_quantity-≤, after_fill, update_order-intent,
}

module _ (b : Broker) (m : MarketDataEnvelope) where
  stage_fill-Conserves :
      (t : Batch) (f : PaperFill) (q : PaperOrder) (position : PaperPosition) (available : ℕ)
      → f.side ≡ q.intent.side
      → capacity_of q.intent.side t.capacities ≡ some available
      → available < 10 ^ 34
      → f.quantity ≤ available
      → Ensures
          (stage_fill b m t f q position (sub matching_prec available f.quantity))
          (Conserves t)
  unfolding stage_fill
  stage_fill-Conserves t f q position available own h fits l =
      let source = some m.session_id in
      let sequence = some m.ingest_sequence in
      Ensures->>= (Conserves t)
        (make_event b t.next_sequence PaperEventType.fill_recorded (PaperEventPayload.of_fill f)
          (causal_time m) source sequence)
        _
        λ e _.
          Ensures->>= (Conserves t)
            (make_event b (t.next_sequence + 1) (event_type_after q.status)
              (PaperEventPayload.of_order q) (causal_time m) source sequence)
            _
            λ e' _.
              Ensures->>= (Conserves t)
                (make_event b (t.next_sequence + 2) PaperEventType.position_changed
                  (PaperEventPayload.of_position position) (causal_time m) source sequence)
                _
                (λ e'' _. record {
                  total = λ side.
                      let (kept, less) =
                        after_fill q.intent.side side t.capacities available f.quantity h fits l in
                      rw (taken-++ side t.result_fills f) (rw own (omega (arith, kept)));
                  less = λ side.
                      (after_fill q.intent.side side t.capacities available f.quantity h fits l).1;
                })

  book_fill-Conserves :
      (t : Batch) (f : PaperFill) (q : PaperOrder) (available : ℕ)
      (position : Outcome PositionFault PaperPosition)
      → f.side ≡ q.intent.side
      → capacity_of q.intent.side t.capacities ≡ some available
      → available < 10 ^ 34
      → f.quantity ≤ available
      → Ensures
          (book_fill b m t f q (sub matching_prec available f.quantity) position)
          (Conserves t)
  unfolding book_fill
  book_fill-Conserves t f q available (ok position) own h fits l =
      stage_fill-Conserves t f q position available own h fits l
  book_fill-Conserves t f q available (raise PositionFault.temporal_order) own h fits l =
      Conserves-skip t _
  book_fill-Conserves t f q available (raise _) own h fits l = tt

  module _ (o : PaperOrder) where
    fill_charged-Conserves :
        (t : Batch) (available quantity : ℕ) (slippage : SlippageAssessment)
        (fee : Outcome PolicyFault FeeAssessment)
        → capacity_of o.intent.side t.capacities ≡ some available
        → available < 10 ^ 34
        → quantity ≤ available
        → Ensures (fill_charged b m t o available quantity slippage fee) (Conserves t)
    unfolding fill_charged
    fill_charged-Conserves t available quantity slippage (raise e) h fits l =
        skip_policy-Conserves t e
    fill_charged-Conserves t available quantity slippage (ok fee) h fits l =
        let f = fill_of b m o quantity slippage fee (t.fill_ordinal + 1) in
        Ensures->>= (Conserves t)
          (within BrokerFault.of_position (check_paper_fill matching_prec f)) _
          λ _ _.
            Ensures-bind (λ q. q.intent ≡ o.intent) (Conserves t) _ _
              (update_order-intent o (add matching_prec o.filled_quantity quantity) quantity
                slippage.execution_price (causal_time m))
              (λ q own.
                book_fill-Conserves t f q available _ (sym (ap (λ i. i.side) own))
                  (ap (λ i. capacity_of i.side t.capacities) own ∙ h) fits l)

    fill_limited-Conserves :
        (top : QuoteTop) (t : Batch) (available : ℕ) (slippage : SlippageAssessment)
        (limit : Outcome PolicyFault (Option MatchSkipReason))
        → capacity_of o.intent.side t.capacities ≡ some available
        → available < 10 ^ 34
        → Ensures (fill_limited b m top t o available slippage limit) (Conserves t)
    unfolding fill_limited
    fill_limited-Conserves top t available slippage (raise e) h fits = skip_policy-Conserves t e
    fill_limited-Conserves top t available slippage (ok (some r)) h fits = Conserves-skip t _
    fill_limited-Conserves top t available slippage (ok none) h fits =
        fill_charged-Conserves t available (fill_quantity o available) slippage _ h fits
          (fill_quantity-≤ o available)

    fill_priced-Conserves :
        (top : QuoteTop) (t : Batch) (available : ℕ)
        (slippage : Outcome PolicyFault SlippageAssessment)
        → capacity_of o.intent.side t.capacities ≡ some available
        → available < 10 ^ 34
        → Ensures (fill_priced b m top t o available slippage) (Conserves t)
    unfolding fill_priced
    fill_priced-Conserves top t available (raise e) h fits = skip_policy-Conserves t e
    fill_priced-Conserves top t available (ok slippage) h fits =
        fill_limited-Conserves top t available slippage _ h fits

    fill_available-Conserves :
        (top : QuoteTop) (t : Batch) (price : ℤ) (available : Option ℕ)
        → capacity_of o.intent.side t.capacities ≡ available
        → or_else available 0 < 10 ^ 34
        → Ensures (fill_available b m top t o price available) (Conserves t)
    unfolding fill_available
    fill_available-Conserves top t price none h fits = Conserves-skip t _
    fill_available-Conserves top t price (some available) h fits =
        Ensures-if (Conserves t) (available == 0) _ _ (λ _. Conserves-skip t _)
          (λ _. fill_priced-Conserves top t available _ h fits)

    fill_crossed-Conserves :
        (top : QuoteTop) (t : Batch) (price : Option ℤ)
        → FitsDigits t.capacities
        → Ensures (fill_crossed b m top t o price) (Conserves t)
    unfolding fill_crossed
    fill_crossed-Conserves top t none fits = Conserves-skip t _
    fill_crossed-Conserves top t (some price) fits =
        fill_available-Conserves top t price _ refl (fits o.intent.side)

    match_order-Conserves :
        (instrument : ℕ) (top : QuoteTop) (t : Batch) (eligibility : Option ℕ)
        → FitsDigits t.capacities
        → Ensures (match_order b m instrument top t o eligibility) (Conserves t)
    unfolding match_order
    match_order-Conserves instrument top t eligibility fits =
        Ensures-if (Conserves t) (is_closed o.status || not (o.intent.instrument_id == instrument))
          _ _ (λ _. Conserves-refl t)
          λ _.
            Ensures-if (Conserves t) (is_ineligible m o eligibility) _ _ (λ _. Conserves-skip t _)
              (λ _. fill_crossed-Conserves top t _ fits)

  match_found-Conserves :
      (instrument : ℕ) (top : QuoteTop) (t : Batch) (o : Option PaperOrder)
      (eligibility : Option (Option ℕ))
      → FitsDigits t.capacities
      → Ensures (match_found b m instrument top t o eligibility) (Conserves t)
  unfolding match_found
  match_found-Conserves instrument top t none eligibility fits = tt
  match_found-Conserves instrument top t (some o) none fits =
      Ensures-if (Conserves t) (is_closed o.status || not (o.intent.instrument_id == instrument)) _
        _ (λ _. Conserves-refl t) (λ _. tt)
  match_found-Conserves instrument top t (some o) (some eligibility) fits =
      match_order-Conserves o instrument top t eligibility fits

  loop-Conserves :
      (instrument : ℕ) (top : QuoteTop) (eligibility : Dict ℕ (Option ℕ)) (ids : List (ℕ × ℕ))
      (t : Batch)
      → FitsDigits t.capacities
      → Ensures (stage_matches b m instrument top eligibility ids t) (Conserves t)
  unfolding stage_matches
  loop-Conserves instrument top eligibility [] t fits = Conserves-refl t
  loop-Conserves instrument top eligibility ((id, ordinal) ∷ ids) t fits =
      Ensures-bind (Conserves t) (Conserves t) _ _
        (match_found-Conserves instrument top t (get t.orders id) (get eligibility id) fits)
        λ u h.
          Ensures-map (stage_matches b m instrument top eligibility ids u)
            (loop-Conserves instrument top eligibility ids u
              (λ side. omega (arith, h.less side, fits side)))
            (λ v h'. Conserves-trans h h')

-- When the matching loop returns, what its fills have taken from a side of the book and what is left
-- of it add up to what they added up to before, on both sides, if what is offered on each side is
-- below 10^34 units. What is left never grows.
pub stage_matches-Conserves :
    (b : Broker) (m : MarketDataEnvelope) (instrument : ℕ) (top : QuoteTop)
    (eligibility : Dict ℕ (Option ℕ)) (ids : List (ℕ × ℕ)) (t u : Batch)
    → FitsDigits t.capacities
    → stage_matches b m instrument top eligibility ids t ≡ ok u
    → Conserves t u
stage_matches-Conserves b m instrument top eligibility ids t u fits h =
    Ensures-eq_ok (Conserves t) (stage_matches b m instrument top eligibility ids t)
      (loop-Conserves b m instrument top eligibility ids t fits) h
