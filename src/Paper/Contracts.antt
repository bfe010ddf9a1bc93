-- ===== src/Paper/Contracts.antt =====
-- tx_trade/orders/contracts.py: the order intent and the paper order, with the constructors' checks.
--
-- Identifiers are numbers, a datetime is a number of microseconds, and an amount is a number of
-- grid units: `_decimal` without bounds asks for a finite Decimal only, so a sign is all it checks.
-- `TimeInForce` and `ExecutionProvenance` have one member each and are left out.
use tx_trader.Common.{
  ℕ, Bool, true, false, ◌&&◌, not, Option, none, some, Outcome, ok, ◌>>◌, raise_if, ltb, ◌==◌, same,
  is_some, is_none, differ,
}
use tx_trader.Decimals.{add}

pub data OrderSide : Type 0 where
  buy sell : OrderSide

pub data OrderType : Type 0 where
  market limit : OrderType

pub data OrderStatus : Type 0 where
  accepted partially_filled filled cancelled rejected : OrderStatus

abbrev pub is_closed : OrderStatus → Bool
is_closed OrderStatus.filled = true
is_closed OrderStatus.cancelled = true
is_closed OrderStatus.rejected = true
is_closed _ = false

pub data PaperFault : Type 0 where
  not_positive market_with_limit limit_missing source_incomplete : PaperFault
  parts_differ average_mismatch filled_not_zero not_partial not_full no_remaining : PaperFault
  accepted_at_on_rejected accepted_at_missing accepted_before_created : PaperFault
  updated_before_created updated_before_accepted : PaperFault
  run_changed order_changed intent_changed accepted_at_changed not_allowed : PaperFault
  time_backwards filled_decreased remaining_increased average_changed : PaperFault
  nothing_filled filled_on_cancel : PaperFault

pub record OrderIntent : Type 0 where
  pub strategy_id : ℕ
  pub client_order_id : ℕ
  pub account_id : ℕ
  pub instrument_id : ℕ
  pub side : OrderSide
  pub quantity : ℕ
  pub order_type : OrderType
  pub limit_price : Option ℕ
  pub day_trade : Bool
  pub created_at : ℕ
  pub source_session_id : Option ℕ
  pub source_ingest_sequence : Option ℕ

unfoldable pub order_side_eq : OrderSide → OrderSide → Bool
order_side_eq OrderSide.buy OrderSide.buy = true
order_side_eq OrderSide.sell OrderSide.sell = true
order_side_eq _ _ = false

unfoldable pub order_type_eq : OrderType → OrderType → Bool
order_type_eq OrderType.market OrderType.market = true
order_type_eq OrderType.limit OrderType.limit = true
order_type_eq _ _ = false

-- `==` of the frozen dataclass: field by field.
unfoldable pub order_intent_eq : OrderIntent → OrderIntent → Bool
order_intent_eq a b =
    a.strategy_id == b.strategy_id
    && a.client_order_id == b.client_order_id
    && a.account_id == b.account_id
    && a.instrument_id == b.instrument_id
    && order_side_eq a.side b.side
    && a.quantity == b.quantity
    && order_type_eq a.order_type b.order_type
    && same a.limit_price b.limit_price
    && not (differ a.day_trade b.day_trade)
    && a.created_at == b.created_at
    && same a.source_session_id b.source_session_id
    && same a.source_ingest_sequence b.source_ingest_sequence

-- `_decimal(..., positive=True, optional=True)` of an optional price.
abbrev pub check_optional_price : Option ℕ → Outcome PaperFault (Unit {0})
check_optional_price none = ok tt
check_optional_price (some p) = raise_if (p == 0) PaperFault.not_positive

-- The limit price by order type.
unfoldable pub check_limit : OrderType → Option ℕ → Outcome PaperFault (Unit {0})
check_limit OrderType.market p = raise_if (is_some p) PaperFault.market_with_limit
check_limit OrderType.limit p = do
  raise_if (is_none p) PaperFault.limit_missing
  check_optional_price p

-- `OrderIntent.__post_init__`.
unfoldable pub check_order_intent : OrderIntent → Outcome PaperFault (Unit {0})
check_order_intent i = do
  raise_if (i.quantity == 0) PaperFault.not_positive
  raise_if (differ (is_none i.source_session_id) (is_none i.source_ingest_sequence))
      PaperFault.source_incomplete
  check_limit i.order_type i.limit_price

pub record PaperOrder : Type 0 where
  pub paper_run_id : ℕ
  pub paper_order_id : ℕ
  pub intent : OrderIntent
  pub status : OrderStatus
  pub filled_quantity : ℕ
  pub remaining_quantity : ℕ
  pub average_fill_price : Option ℕ
  pub accepted_at : Option ℕ
  pub updated_at : ℕ

-- The status' own condition on the quantities.
unfoldable pub check_status : OrderStatus → ℕ → ℕ → ℕ → Outcome PaperFault (Unit {0})
check_status OrderStatus.accepted quantity done rest =
    raise_if (not (done == 0)) PaperFault.filled_not_zero
check_status OrderStatus.rejected quantity done rest =
    raise_if (not (done == 0)) PaperFault.filled_not_zero
check_status OrderStatus.partially_filled quantity done rest =
    raise_if (not (ltb 0 done && ltb done quantity)) PaperFault.not_partial
check_status OrderStatus.filled quantity done rest =
    raise_if (not (done == quantity)) PaperFault.not_full
check_status OrderStatus.cancelled quantity done rest = raise_if (rest == 0) PaperFault.no_remaining

-- The acceptance by status.
unfoldable pub check_accepted : OrderStatus → Option ℕ → ℕ → Outcome PaperFault (Unit {0})
check_accepted OrderStatus.rejected a created =
    raise_if (is_some a) PaperFault.accepted_at_on_rejected
check_accepted _ none created = raise_if true PaperFault.accepted_at_missing
check_accepted _ (some a) created = raise_if (ltb a created) PaperFault.accepted_before_created

abbrev pub precedes : ℕ → Option ℕ → Bool
precedes t none = false
precedes t (some a) = ltb t a

-- `PaperOrder.__post_init__` under a decimal context of this precision: the sum depends on it.
unfoldable pub check_paper_order : ℕ → PaperOrder → Outcome PaperFault (Unit {0})
check_paper_order prec o = do
  check_optional_price o.average_fill_price
  raise_if (not (add prec o.filled_quantity o.remaining_quantity == o.intent.quantity))
      PaperFault.parts_differ
  raise_if (differ (o.filled_quantity == 0) (is_none o.average_fill_price))
      PaperFault.average_mismatch
  check_status o.status o.intent.quantity o.filled_quantity o.remaining_quantity
  check_accepted o.status o.accepted_at o.intent.created_at
  raise_if (ltb o.updated_at o.intent.created_at) PaperFault.updated_before_created
  raise_if (precedes o.updated_at o.accepted_at) PaperFault.updated_before_accepted
