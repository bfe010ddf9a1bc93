-- ===== src/Paper/Matching.antt =====
-- tx_trade/orders/matching.py: the top of the book, and the price at which an order executes on it.
--
-- A normalized price may be zero or negative, so it is an integer of grid units; the amounts of a
-- quote are not negative. A scale is only compared, or multiplies a raw quantity.
use tx_trader.Common.{
  ℕ, ◌+◌, ◌*◌, Bool, true, false, ◌&&◌, ◌||◌, not, Option, none, some, List, [], ◌∷◌, ◌++◌, leb,
  ◌==◌, same, is_none, if◌then◌else◌, ℤ, pos, pos_part, neg_part, is_long,
}
use tx_trader.Decimals.{round_to}
use tx_trader.Paper.Contracts.{OrderSide, OrderType, OrderIntent}

pub data MatchSkipReason : Type 0 where
  metadata_unavailable metadata_mismatch price_scale_unavailable : MatchSkipReason
  quantity_scale_unavailable price_unavailable quantity_unavailable : MatchSkipReason
  simulated_quote invalid_book no_liquidity : MatchSkipReason
  event_not_quote order_not_eligible limit_not_crossed slippage_exceeds_limit : MatchSkipReason

-- The fields of a quote that are looked at.
pub record Quote : Type 0 where
  pub instrument_id : ℕ
  pub bid_normalized : Option ℤ
  pub ask_normalized : Option ℤ
  pub bid_qty_raw : Option ℕ
  pub ask_qty_raw : Option ℕ
  pub is_simulated : Option Bool
  pub price_scale : Option ℕ

pub record InstrumentMetadataSnapshot : Type 0 where
  pub instrument_id : ℕ
  pub metadata_version : ℕ
  pub price_scale : Option ℕ
  pub quantity_scale : Option ℕ
  pub currency : Option ℕ

pub record QuoteTop : Type 0 where
  pub bid : ℤ
  pub ask : ℤ
  pub bid_capacity : Option ℕ
  pub ask_capacity : Option ℕ
  pub currency : Option ℕ
  pub skip_reasons : List MatchSkipReason

-- What `inspect_quote_top` returns: a top, or the reasons why there is none.
pub data Inspection : Type 0 where
  usable : QuoteTop → Inspection
  skipped : List MatchSkipReason → Inspection

abbrev pub is_at_most : ℤ → ℤ → Bool
is_at_most a b = leb (pos_part a + neg_part b) (pos_part b + neg_part a)

-- `_capacity`, in the 34-digit context.
unfoldable pub capacity : Option ℕ → ℕ → Option ℕ
capacity none scale = none
capacity (some raw) scale = some (round_to 34 (raw * scale) 1)

abbrev pub is_empty : Option ℕ → Bool
is_empty none = false
is_empty (some v) = v == 0

abbrev reason_if : Bool → MatchSkipReason → List MatchSkipReason
reason_if true r = r ∷ []
reason_if false r = []

-- `is_simulated is not False`.
abbrev pub may_be_simulated : Option Bool → Bool
may_be_simulated (some false) = false
may_be_simulated _ = true

abbrev pub is_invalid_book : ℤ → ℤ → Bool
is_invalid_book bid ask = not (is_long bid) || not (is_long ask) || not (is_at_most bid ask)

-- The end of `inspect_quote_top`, for a book with these prices and a known quantity scale.
unfoldable pub inspect_book :
    Quote → InstrumentMetadataSnapshot → ℕ → Option ℤ → Option ℤ → Inspection
inspect_book q m scale none ask = skipped (MatchSkipReason.price_unavailable ∷ [])
inspect_book q m scale (some bid) none = skipped (MatchSkipReason.price_unavailable ∷ [])
inspect_book q m scale (some bid) (some ask) =
    let bid_capacity = capacity q.bid_qty_raw scale in
    let ask_capacity = capacity q.ask_qty_raw scale in
    if is_invalid_book bid ask
    then skipped (MatchSkipReason.invalid_book ∷ [])
    else usable (record {
      bid = bid;
      ask = ask;
      bid_capacity = bid_capacity;
      ask_capacity = ask_capacity;
      currency = m.currency;
      skip_reasons =
          reason_if (is_none bid_capacity || is_none ask_capacity)
            MatchSkipReason.quantity_unavailable
          ++ reason_if (is_empty bid_capacity && is_empty ask_capacity)
              MatchSkipReason.no_liquidity;
    })

unfoldable pub inspect_quantity : Quote → InstrumentMetadataSnapshot → Option ℕ → Inspection
inspect_quantity q m none = skipped (MatchSkipReason.quantity_scale_unavailable ∷ [])
inspect_quantity q m (some scale) =
    if may_be_simulated q.is_simulated
    then skipped (MatchSkipReason.simulated_quote ∷ [])
    else inspect_book q m scale q.bid_normalized q.ask_normalized

unfoldable pub inspect_quote_top : Quote → Option InstrumentMetadataSnapshot → Inspection
inspect_quote_top q none = skipped (MatchSkipReason.metadata_unavailable ∷ [])
inspect_quote_top q (some m) =
    if not (q.instrument_id == m.instrument_id)
    then skipped (MatchSkipReason.metadata_mismatch ∷ [])
    else if is_none m.price_scale || is_none q.price_scale
    then skipped (MatchSkipReason.price_scale_unavailable ∷ [])
    else if not (same q.price_scale m.price_scale)
    then skipped (MatchSkipReason.metadata_mismatch ∷ [])
    else inspect_quantity q m m.quantity_scale

-- The far side of the book.
abbrev pub far_price : OrderSide → QuoteTop → ℤ
far_price OrderSide.buy top = top.ask
far_price OrderSide.sell top = top.bid

abbrev pub is_crossed : OrderSide → ℤ → ℕ → Bool
is_crossed OrderSide.buy price limit = is_at_most price (pos limit)
is_crossed OrderSide.sell price limit = is_at_most (pos limit) price

-- `execution_price`; a limit order has a limit price by its intent's checks, which the source
-- asserts.
unfoldable pub execution_price_at : OrderSide → OrderType → Option ℕ → ℤ → Option ℤ
execution_price_at side OrderType.market limit price = some price
execution_price_at side OrderType.limit none price = none
execution_price_at side OrderType.limit (some limit) price =
    if is_crossed side price limit then some price else none

unfoldable pub execution_price : OrderIntent → QuoteTop → Option ℤ
execution_price i top = execution_price_at i.side i.order_type i.limit_price (far_price i.side top)
