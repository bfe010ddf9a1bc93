-- ===== src/Paper/Broker/Matches.antt =====
-- tx_trade/orders/paper_broker.py: the loop of `_stage_matches`.
use tx_trader.Common.{
  ℕ, ◌+◌, ◌||◌, not, Option, none, some, List, [], ◌∷◌, Outcome, ok, raise, ◌>>=◌, ◌>>◌, ltb, ◌==◌,
  if◌then◌else◌, Dict, get, eq_nat, eq_pair, eq_triple, ℤ, pos_part,
}
use tx_trader.Decimals.{add, sub}
use tx_trader.Paper.Contracts.{PaperOrder, is_closed}
use tx_trader.Paper.Position.{check_paper_fill, apply_fill_to_position}
use tx_trader.Paper.Matching.{QuoteTop, MatchSkipReason, execution_price}
use tx_trader.Paper.Policies.{
  PolicyFault, SlippageAssessment, FeeAssessment, assess_slippage, assess_limit, assess_fee,
}
use tx_trader.Paper.Broker.State.{MarketDataEnvelope, BrokerFault, within, Broker}
use tx_trader.Paper.Broker.Commands.{matching_prec}
use tx_trader.Paper.Broker.Batch.{capacity_of, Batch, causal_time, is_ineligible, skip, skip_policy}
use tx_trader.Paper.Broker.Fills.{fill_of, update_order, position_key, book_fill}

-- The loop's body from the fee on.
unfoldable pub fill_charged :
    Broker
    → MarketDataEnvelope
    → Batch
    → PaperOrder
    → ℕ
    → ℕ
    → SlippageAssessment
    → Outcome PolicyFault FeeAssessment
    → Outcome BrokerFault Batch
fill_charged b m t o available quantity slippage (raise e) = skip_policy t e
fill_charged b m t o available quantity slippage (ok fee) =
    let f = fill_of b m o quantity slippage fee (t.fill_ordinal + 1) in
    do
      within BrokerFault.of_position (check_paper_fill matching_prec f)
      updated ←
          update_order o (add matching_prec o.filled_quantity quantity) quantity
            slippage.execution_price (causal_time m)
      book_fill b m t f updated (sub matching_prec available quantity)
          (apply_fill_to_position b.grid b.lot b.position_id (get t.positions (position_key o)) f)

-- `min(order.remaining_quantity, available)`
abbrev pub fill_quantity : PaperOrder → ℕ → ℕ
fill_quantity o available =
    if ltb available o.remaining_quantity then available else o.remaining_quantity

unfoldable pub fill_limited :
    Broker
    → MarketDataEnvelope
    → QuoteTop
    → Batch
    → PaperOrder
    → ℕ
    → SlippageAssessment
    → Outcome PolicyFault (Option MatchSkipReason)
    → Outcome BrokerFault Batch
fill_limited b m top t o available slippage (raise e) = skip_policy t e
fill_limited b m top t o available slippage (ok (some r)) = skip t r
fill_limited b m top t o available slippage (ok none) =
    let quantity = fill_quantity o available in
    fill_charged b m t o available quantity slippage (
      assess_fee b.grid b.lot b.exact_context b.fee_schedule o.intent.instrument_id top.currency
        o.filled_quantity (add matching_prec o.filled_quantity quantity))

unfoldable pub fill_priced :
    Broker
    → MarketDataEnvelope
    → QuoteTop
    → Batch
    → PaperOrder
    → ℕ
    → Outcome PolicyFault SlippageAssessment
    → Outcome BrokerFault Batch
fill_priced b m top t o available (raise e) = skip_policy t e
fill_priced b m top t o available (ok slippage) =
    fill_limited b m top t o available slippage
      (assess_limit slippage.execution_price o.intent.side o.intent.limit_price)

-- A price below zero is refused like zero.
unfoldable pub fill_available :
    Broker
    → MarketDataEnvelope
    → QuoteTop
    → Batch
    → PaperOrder
    → ℤ
    → Option ℕ
    → Outcome BrokerFault Batch
fill_available b m top t o price none = skip t MatchSkipReason.quantity_unavailable
fill_available b m top t o price (some available) =
    if available == 0
    then skip t MatchSkipReason.no_liquidity
    else fill_priced b m top t o available
        (assess_slippage b.grid (pos_part price) o.intent.side b.slippage)

unfoldable pub fill_crossed :
    Broker
    → MarketDataEnvelope
    → QuoteTop
    → Batch
    → PaperOrder
    → Option ℤ
    → Outcome BrokerFault Batch
fill_crossed b m top t o none = skip t MatchSkipReason.limit_not_crossed
fill_crossed b m top t o (some price) =
    fill_available b m top t o price (capacity_of o.intent.side t.capacities)

-- The loop's body for an order of the store, and its eligibility.
unfoldable pub match_order :
    Broker
    → MarketDataEnvelope
    → ℕ
    → QuoteTop
    → Batch
    → PaperOrder
    → Option ℕ
    → Outcome BrokerFault Batch
match_order b m instrument top t o eligibility =
    if is_closed o.status || not (o.intent.instrument_id == instrument)
    then ok t
    else if is_ineligible m o eligibility
    then skip t MatchSkipReason.order_not_eligible
    else fill_crossed b m top t o (execution_price o.intent top)

-- A missing key raises.
unfoldable pub match_found :
    Broker
    → MarketDataEnvelope
    → ℕ
    → QuoteTop
    → Batch
    → Option PaperOrder
    → Option (Option ℕ)
    → Outcome BrokerFault Batch
match_found b m instrument top t none eligibility = raise BrokerFault.not_in_store
match_found b m instrument top t (some o) none =
    if is_closed o.status || not (o.intent.instrument_id == instrument)
    then ok t
    else raise BrokerFault.not_in_store
match_found b m instrument top t (some o) (some eligibility) =
    match_order b m instrument top t o eligibility

-- `_stage_matches`
unfoldable pub stage_matches :
    Broker
    → MarketDataEnvelope
    → ℕ
    → QuoteTop
    → Dict ℕ (Option ℕ)
    → List (ℕ × ℕ)
    → Batch
    → Outcome BrokerFault Batch
stage_matches b m instrument top eligibility [] t = ok t
stage_matches b m instrument top eligibility ((id, ordinal) ∷ ids) t = do
  u ← match_found b m instrument top t (get t.orders id) (get eligibility id)
  stage_matches b m instrument top eligibility ids u
