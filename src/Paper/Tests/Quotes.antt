-- ===== src/Paper/Tests/Quotes.antt =====
-- A quote of 49 bid and 50 asked, and the order under test on it.
use tx_trader.Common.{◌↔◌, ℤ, ◌≤◌, ◌≡◌, refl, false, none, some, [], pos}
use tx_trader.Decimals.{round_to, round_at, quantum, half_even}
use tx_trader.Paper.Matching.{
  Quote, InstrumentMetadataSnapshot, QuoteTop, Inspection, capacity, inspect_book, inspect_quantity,
  inspect_quote_top, execution_price_at, execution_price,
}
use tx_trader.Paper.Execution.{IfUsable, IsSound, inspect_quote_top-IsSound, execution_price-allows}
use tx_trader.Paper.Tests.{intent, intent_good}

abbrev quote : Quote
quote = record {
  instrument_id = 4;
  bid_normalized = some (pos 49);
  ask_normalized = some (pos 50);
  bid_qty_raw = some 2;
  ask_qty_raw = some 3;
  is_simulated = some false;
  price_scale = some 1;
}

abbrev metadata : InstrumentMetadataSnapshot
metadata = record {
  instrument_id = 4;
  metadata_version = 1;
  price_scale = some 1;
  quantity_scale = some 1;
  currency = none;
}

abbrev top : QuoteTop
top = record {
  bid = pos 49;
  ask = pos 50;
  bid_capacity = some 2;
  ask_capacity = some 3;
  currency = none;
  skip_reasons = [];
}

quote_usable : inspect_quote_top quote (some metadata) ≡ Inspection.usable top
unfolding inspect_quote_top inspect_quantity inspect_book capacity round_to round_at quantum
    half_even
quote_usable = refl

inspect_quote_top-IsSound_example :
    IfUsable (IsSound quote) (inspect_quote_top quote (some metadata))
inspect_quote_top-IsSound_example = inspect_quote_top-IsSound quote (some metadata)

bought_at_ask : execution_price intent top ≡ some (pos 50)
unfolding execution_price execution_price_at
bought_at_ask = refl

execution_price-allows_example :
    (execution_price intent top ≡ some (pos 50)) ↔ ((◌≡◌ {A = ℤ} (pos 50) (pos 50)) × (50 ≤ 50))
execution_price-allows_example = execution_price-allows intent top (pos 50) intent_good
