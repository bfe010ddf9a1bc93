-- ===== src/Paper/Broker/Batch.antt =====
-- tx_trade/orders/paper_broker.py: what the matching loop keeps, and its
-- tests; with the weighted average of matching.py.
--
-- The loop's own lists and dicts are the fields of a `Batch`, which the loop hands on.
use tx_trader.Common.{
  ℕ, ◌*◌, Bool, false, ◌||◌, not, Option, none, some, List, [], ◌∷◌, ◌++◌, Outcome, ok, raise, ◌>>◌,
  raise_if, ltb, leb, ◌==◌, or_else, if◌then◌else◌, Dict, eq_nat, eq_pair, eq_triple,
}
use tx_trader.Decimals.{add, round_to}
use tx_trader.Paper.Contracts.{OrderSide, PaperOrder}
use tx_trader.Paper.Position.{PaperFill, PaperPosition}
use tx_trader.Paper.Matching.{MatchSkipReason}
use tx_trader.Paper.Policies.{PolicyFault}
use tx_trader.Paper.Events.{PaperEvent}
use tx_trader.Paper.Broker.State.{MarketDataEnvelope, BrokerFault}
use tx_trader.Paper.Broker.Commands.{matching_prec}

pub record Capacities : Type 0 where
  pub of_buy : Option ℕ
  pub of_sell : Option ℕ

abbrev pub capacity_of : OrderSide → Capacities → Option ℕ
capacity_of OrderSide.buy c = c.of_buy
capacity_of OrderSide.sell c = c.of_sell

abbrev pub with_capacity : OrderSide → ℕ → Capacities → Capacities
with_capacity OrderSide.buy left c = record c { of_buy = some left }
with_capacity OrderSide.sell left c = record c { of_sell = some left }

pub record Batch : Type 0 where
  pub orders : Dict ℕ PaperOrder
  pub positions : Dict (ℕ × ℕ × ℕ) PaperPosition
  pub fills : List PaperFill
  pub events : List PaperEvent
  pub next_sequence : ℕ
  pub result_fills : List PaperFill
  pub result_positions : List PaperPosition
  pub result_events : List PaperEvent
  pub reasons : List MatchSkipReason
  pub capacities : Capacities
  pub fill_ordinal : ℕ

-- `sorted(state.acceptance_ordinal.items(), key=lambda item: item[1])`, which is stable.
unfoldable pub insert_by_ordinal : ℕ × ℕ → List (ℕ × ℕ) → List (ℕ × ℕ)
insert_by_ordinal p [] = p ∷ []
insert_by_ordinal p (q ∷ l) =
    let rest = insert_by_ordinal p l in if leb p.1 q.1 then p ∷ q ∷ l else q ∷ rest

unfoldable pub by_ordinal : Dict ℕ ℕ → List (ℕ × ℕ)
by_ordinal [] = []
by_ordinal (p ∷ l) = insert_by_ordinal p (by_ordinal l)

-- `envelope.event_at or envelope.received_at`
abbrev pub causal_time : MarketDataEnvelope → ℕ
causal_time m = or_else m.event_at m.received_at

-- `sequence <= eligibility`, where the eligibility may be -1.
abbrev pub is_until : ℕ → Option ℕ → Bool
is_until sequence none = false
is_until sequence (some eligibility) = leb sequence eligibility

abbrev pub is_other_session : Option ℕ → ℕ → Bool
is_other_session none session = false
is_other_session (some given) session = not (given == session)

unfoldable pub is_ineligible : MarketDataEnvelope → PaperOrder → Option ℕ → Bool
is_ineligible m o eligibility =
    is_until m.ingest_sequence eligibility
    || is_other_session o.intent.source_session_id m.session_id
    || ltb (causal_time m) o.updated_at

-- `_policy_skip_reason`
unfoldable pub policy_skip_reason : PolicyFault → Option MatchSkipReason
policy_skip_reason PolicyFault.fee_currency_mismatch = some MatchSkipReason.metadata_mismatch
policy_skip_reason PolicyFault.fee_rule_missing = some MatchSkipReason.metadata_unavailable
policy_skip_reason PolicyFault.fee_currency_missing = some MatchSkipReason.metadata_unavailable
policy_skip_reason PolicyFault.slippage_unrepresentable = some MatchSkipReason.price_unavailable
policy_skip_reason _ = none

-- The quotient in `weighted_average` of matching.py; the exponents of `MATCHING_CONTEXT` go up to
-- 999999, and its overflow is not modelled.
unfoldable pub matched_average : (old_quantity old_average quantity price total_quantity : ℕ) → ℕ
matched_average q a d x n =
    round_to matching_prec
      (add matching_prec (round_to matching_prec (q * a) 1) (round_to matching_prec (d * x) 1)) n

-- `weighted_average` of matching.py.
unfoldable pub weighted_average : ℕ → Option ℕ → ℕ → ℕ → Outcome BrokerFault ℕ
weighted_average q a d x = do
  raise_if (add matching_prec q d == 0) BrokerFault.arithmetic
  raise_if (matched_average q (or_else a 0) d x (add matching_prec q d) == 0) BrokerFault.arithmetic
  ok (matched_average q (or_else a 0) d x (add matching_prec q d))

abbrev pub skip : Batch → MatchSkipReason → Outcome BrokerFault Batch
skip t r = ok (record t { reasons = t.reasons ++ (r ∷ []) })

-- An error of the policies is a reason to skip the order, or passes through.
unfoldable pub skip_policy : Batch → PolicyFault → Outcome BrokerFault Batch
skip_policy t e = elim (policy_skip_reason e) [
  | none ↦ raise (BrokerFault.of_policy e)
  | some r ↦ skip t r
]
