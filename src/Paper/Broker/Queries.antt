-- ===== src/Paper/Broker/Queries.antt =====
-- tx_trade/orders/paper_broker.py: the queries, but those that sort strings.
use tx_trader.Common.{
  ℕ, Option, none, some, List, [], ◌∷◌, Outcome, ok, raise, ◌>>=◌, Dict, get, eq_nat, eq_triple,
}
use tx_trader.Paper.Contracts.{PaperOrder}
use tx_trader.Paper.Position.{PaperPosition}
use tx_trader.Paper.Broker.State.{BrokerFault, BrokerState}
use tx_trader.Paper.Broker.Batch.{by_ordinal}

unfoldable pub get_order : BrokerState → ℕ → Option PaperOrder
get_order s id = get s.orders id

unfoldable pub get_position : BrokerState → ℕ → ℕ → ℕ → Option PaperPosition
get_position s strategy_id account_id instrument_id =
    get s.positions (strategy_id, account_id, instrument_id)

-- `state.orders[order_id]`
abbrev stored_order : Option PaperOrder → Outcome BrokerFault PaperOrder
stored_order none = raise BrokerFault.not_in_store
stored_order (some o) = ok o

unfoldable pub orders_at : Dict ℕ PaperOrder → List (ℕ × ℕ) → Outcome BrokerFault (List PaperOrder)
orders_at orders [] = ok []
orders_at orders ((id, ordinal) ∷ ids) = do
  o ← stored_order (get orders id)
  rest ← orders_at orders ids
  ok (o ∷ rest)

-- `list_orders`, in the order of acceptance.
unfoldable pub list_orders : BrokerState → Outcome BrokerFault (List PaperOrder)
list_orders s = orders_at s.orders (by_ordinal s.acceptance_ordinal)
