-- ===== src/Paper/Broker/Filling.antt =====
-- The matching loop makes only changes that the contract allows.
use tx_trader.Common.{
  ℕ, ◌+◌, ◌≡◌, refl, ◌||◌, not, Option, none, some, List, [], ◌∷◌, Outcome, ok, raise, raise_if,
  Ensures, Ensures->>=, Ensures-bind, Ensures-if, Ensures-map, ltb, ◌==◌, Dict, get, eq_nat,
  eq_pair, eq_triple, inl, inr, Option-cases, ℤ, arith,
}
use tx_trader.Decimals.{add}
use tx_trader.Paper.Contracts.{PaperOrder, PaperFault, check_paper_order, is_closed}
use tx_trader.Paper.Transition.{validate_order_transition}
use tx_trader.Paper.Position.{PositionFault, PaperFill, PaperPosition, check_paper_fill}
use tx_trader.Paper.Matching.{QuoteTop, MatchSkipReason}
use tx_trader.Paper.Policies.{PolicyFault, SlippageAssessment, FeeAssessment}
use tx_trader.Paper.Events.{PaperEventType, PaperEventPayload}
use tx_trader.Paper.Broker.State.{MarketDataEnvelope, BrokerFault, within, Broker, BrokerState}
use tx_trader.Paper.Broker.Commands.{matching_prec}
use tx_trader.Paper.Broker.Batch.{
  Batch, causal_time, is_ineligible, policy_skip_reason, weighted_average, skip_policy,
}
use tx_trader.Paper.Broker.Fills.{
  fill_of, filled_order, update_order, event_type_after, stage_fill, book_fill,
}
use tx_trader.Paper.Broker.Matches.{
  fill_charged, fill_limited, fill_priced, fill_available, fill_crossed, match_order, match_found,
  stage_matches,
}
use tx_trader.Paper.Broker.Changes.{Core, Change, Changes, Changes_trans, Changes_one}
use tx_trader.Paper.Broker.Allowed.{within-eq_ok, make_event-numbered}

-- The contract's part of a batch that has been started in the state `s`.
abbrev pub batch_core : BrokerState → Batch → Core
batch_core s t = record {
  orders = t.orders;
  outcomes = s.submit_outcomes;
  events = t.events;
  next = t.next_sequence;
}

-- A batch that the contract allows after this one.
abbrev pub BatchAllowed : Broker → BrokerState → Batch → Batch → Type 0
BatchAllowed b s t u = Changes b (batch_core s t) (batch_core s u)

skip_policy-BatchAllowed :
    (b : Broker) (s : BrokerState) (t : Batch) (e : PolicyFault)
    → Ensures (skip_policy t e) (BatchAllowed b s t)
unfolding skip_policy
skip_policy-BatchAllowed b s t e = elim (Option-cases (policy_skip_reason e)) [
  | inl h ↦ rw (h, Ensures) tt
  | inr (r, h) ↦ rw (h, Ensures) Changes.stay
]

-- What an updated order has checked.
abbrev Advanced : PaperOrder → PaperOrder → Type 0
Advanced p q = (check_paper_order matching_prec q ≡ ok tt) × (validate_order_transition p q ≡ ok tt)

update_order-Advanced :
    (o : PaperOrder) (done quantity price at : ℕ)
    → Ensures (update_order o done quantity price at) (Advanced o)
unfolding update_order
update_order-Advanced o done quantity price at =
    Ensures->>= (Advanced o)
      (weighted_average o.filled_quantity o.average_fill_price quantity price) _
      λ average _.
        Ensures->>= (Advanced o)
          (raise_if (ltb o.intent.quantity done)
            (BrokerFault.of_order_check PaperFault.not_positive))
          _
          λ _ _.
            Ensures->>= (Advanced o)
              (within BrokerFault.of_order_check
                (check_paper_order matching_prec (filled_order o done average at)))
              _
              λ _ checked.
                Ensures->>= (Advanced o)
                  (within BrokerFault.of_order_check
                    (validate_order_transition o (filled_order o done average at)))
                  _ (λ _ valid. (within-eq_ok _ _ checked, within-eq_ok _ _ valid))

module _ (b : Broker) (s : BrokerState) (m : MarketDataEnvelope) where
  stage_fill-BatchAllowed :
      (t : Batch) (f : PaperFill) (id : ℕ) (p q : PaperOrder) (position : PaperPosition) (left : ℕ)
      → get t.orders id ≡ some p
      → Advanced p q
      → Ensures (stage_fill b m t f q position left) (BatchAllowed b s t)
  unfolding stage_fill
  stage_fill-BatchAllowed t f id p q position left found (checked, valid) =
      let source = some m.session_id in
      let sequence = some m.ingest_sequence in
      Ensures-bind (λ e. e.paper_sequence ≡ t.next_sequence) (BatchAllowed b s t) _ _
        (make_event-numbered b t.next_sequence PaperEventType.fill_recorded
          (PaperEventPayload.of_fill f) (causal_time m) source sequence)
        λ e n.
          Ensures-bind (λ e'. e'.paper_sequence ≡ t.next_sequence + 1) (BatchAllowed b s t) _ _
            (make_event-numbered b (t.next_sequence + 1) (event_type_after q.status)
              (PaperEventPayload.of_order q) (causal_time m) source sequence)
            λ e' n'.
              Ensures-bind (λ e''. e''.paper_sequence ≡ t.next_sequence + 2) (BatchAllowed b s t) _
                _
                (make_event-numbered b (t.next_sequence + 2) PaperEventType.position_changed
                  (PaperEventPayload.of_position position) (causal_time m) source sequence)
                (λ e'' n''.
                  Changes.then
                    (Changes_one
                      (Change.emits (e ∷ e' ∷ e'' ∷ []) (n, (n', (omega (arith, n''), tt)))))
                    (Change.advances id p q found checked valid))

  book_fill-BatchAllowed :
      (t : Batch) (f : PaperFill) (id : ℕ) (p q : PaperOrder) (left : ℕ)
      (position : Outcome PositionFault PaperPosition)
      → get t.orders id ≡ some p
      → Advanced p q
      → Ensures (book_fill b m t f q left position) (BatchAllowed b s t)
  unfolding book_fill
  book_fill-BatchAllowed t f id p q left (ok position) found advanced =
      stage_fill-BatchAllowed t f id p q position left found advanced
  book_fill-BatchAllowed t f id p q left (raise PositionFault.temporal_order) found advanced =
      Changes.stay
  book_fill-BatchAllowed t f id p q left (raise _) found advanced = tt

  module _ (id : ℕ) (p : PaperOrder) where
    fill_charged-BatchAllowed :
        (t : Batch) (available quantity : ℕ) (slippage : SlippageAssessment)
        (fee : Outcome PolicyFault FeeAssessment)
        → get t.orders id ≡ some p
        → Ensures (fill_charged b m t p available quantity slippage fee) (BatchAllowed b s t)
    unfolding fill_charged
    fill_charged-BatchAllowed t available quantity slippage (raise e) found =
        skip_policy-BatchAllowed b s t e
    fill_charged-BatchAllowed t available quantity slippage (ok fee) found =
        let f = fill_of b m p quantity slippage fee (t.fill_ordinal + 1) in
        Ensures->>= (BatchAllowed b s t)
          (within BrokerFault.of_position (check_paper_fill matching_prec f)) _
          λ _ _.
            Ensures-bind (Advanced p) (BatchAllowed b s t) _ _
              (update_order-Advanced p (add matching_prec p.filled_quantity quantity) quantity
                slippage.execution_price (causal_time m))
              (λ q advanced. book_fill-BatchAllowed t f id p q _ _ found advanced)

    fill_limited-BatchAllowed :
        (top : QuoteTop) (t : Batch) (available : ℕ) (slippage : SlippageAssessment)
        (limit : Outcome PolicyFault (Option MatchSkipReason))
        → get t.orders id ≡ some p
        → Ensures (fill_limited b m top t p available slippage limit) (BatchAllowed b s t)
    unfolding fill_limited
    fill_limited-BatchAllowed top t available slippage (raise e) found =
        skip_policy-BatchAllowed b s t e
    fill_limited-BatchAllowed top t available slippage (ok (some r)) found = Changes.stay
    fill_limited-BatchAllowed top t available slippage (ok none) found =
        fill_charged-BatchAllowed t available _ slippage _ found

    fill_priced-BatchAllowed :
        (top : QuoteTop) (t : Batch) (available : ℕ)
        (slippage : Outcome PolicyFault SlippageAssessment)
        → get t.orders id ≡ some p
        → Ensures (fill_priced b m top t p available slippage) (BatchAllowed b s t)
    unfolding fill_priced
    fill_priced-BatchAllowed top t available (raise e) found = skip_policy-BatchAllowed b s t e
    fill_priced-BatchAllowed top t available (ok slippage) found =
        fill_limited-BatchAllowed top t available slippage _ found

    fill_available-BatchAllowed :
        (top : QuoteTop) (t : Batch) (price : ℤ) (available : Option ℕ)
        → get t.orders id ≡ some p
        → Ensures (fill_available b m top t p price available) (BatchAllowed b s t)
    unfolding fill_available
    fill_available-BatchAllowed top t price none found = Changes.stay
    fill_available-BatchAllowed top t price (some available) found =
        Ensures-if (BatchAllowed b s t) (available == 0) _ _ (λ _. Changes.stay)
          (λ _. fill_priced-BatchAllowed top t available _ found)

    fill_crossed-BatchAllowed :
        (top : QuoteTop) (t : Batch) (price : Option ℤ)
        → get t.orders id ≡ some p
        → Ensures (fill_crossed b m top t p price) (BatchAllowed b s t)
    unfolding fill_crossed
    fill_crossed-BatchAllowed top t none found = Changes.stay
    fill_crossed-BatchAllowed top t (some price) found =
        fill_available-BatchAllowed top t price _ found

    match_order-BatchAllowed :
        (instrument : ℕ) (top : QuoteTop) (t : Batch) (eligibility : Option ℕ)
        → get t.orders id ≡ some p
        → Ensures (match_order b m instrument top t p eligibility) (BatchAllowed b s t)
    unfolding match_order
    match_order-BatchAllowed instrument top t eligibility found =
        Ensures-if (BatchAllowed b s t)
          (is_closed p.status || not (p.intent.instrument_id == instrument)) _ _ (λ _. Changes.stay)
          λ _.
            Ensures-if (BatchAllowed b s t) (is_ineligible m p eligibility) _ _ (λ _. Changes.stay)
              (λ _. fill_crossed-BatchAllowed top t _ found)

  match_found-BatchAllowed :
      (instrument : ℕ) (top : QuoteTop) (t : Batch) (id : ℕ) (o : Option PaperOrder)
      (eligibility : Option (Option ℕ))
      → get t.orders id ≡ o
      → Ensures (match_found b m instrument top t o eligibility) (BatchAllowed b s t)
  unfolding match_found
  match_found-BatchAllowed instrument top t id none eligibility found = tt
  match_found-BatchAllowed instrument top t id (some p) none found =
      Ensures-if (BatchAllowed b s t)
        (is_closed p.status || not (p.intent.instrument_id == instrument)) _ _ (λ _. Changes.stay)
        (λ _. tt)
  match_found-BatchAllowed instrument top t id (some p) (some eligibility) found =
      match_order-BatchAllowed id p instrument top t eligibility found

  pub stage_matches-BatchAllowed :
      (instrument : ℕ) (top : QuoteTop) (eligibility : Dict ℕ (Option ℕ)) (ids : List (ℕ × ℕ))
      (t : Batch)
      → Ensures (stage_matches b m instrument top eligibility ids t) (BatchAllowed b s t)
  unfolding stage_matches
  stage_matches-BatchAllowed instrument top eligibility [] t = Changes.stay
  stage_matches-BatchAllowed instrument top eligibility ((id, ordinal) ∷ ids) t =
      Ensures-bind (BatchAllowed b s t) (BatchAllowed b s t) _ _
        (match_found-BatchAllowed instrument top t id _ (get eligibility id) refl)
        λ u h.
          Ensures-map (stage_matches b m instrument top eligibility ids u)
            (stage_matches-BatchAllowed instrument top eligibility ids u)
            (λ v h'. Changes_trans h h')
