-- ===== src/Paper/Position.antt =====
-- tx_trade/orders/position_ledger.py, with PaperFill and PaperPosition of contracts.py.
--
-- Quantities, and likewise fees, are counted in units of their common exponent, which is from -6176
-- to 0; a sum is then exact in the 34-digit context just when it is below 10^34. `lot` of the units
-- of quantities make 1. Prices are in units of a grid fine enough for the average. `identify` stands for uuid5 over the canonical key.
-- The fingerprint of the execution configuration is carried along only, so it is left out.
use tx_trader.Common.{
  ℕ, zero, suc, ◌+◌, ◌*◌, ◌/◌, ◌^◌, Bool, true, false, ◌&&◌, not, Option, none, some, Outcome, ok,
  raise, ◌>>=◌, ◌>>◌, raise_if, ltb, leb, ◌==◌, same, is_some, is_none, differ, or_else,
  if◌then◌else◌, ℤ, pos, negsuc, ◌+ℤ◌, magnitude, is_flat, is_long,
}
use tx_trader.Decimals.{Grid, quantum, round_at, sub}
use tx_trader.Paper.Contracts.{OrderSide}

pub data PositionFault : Type 0 where
  key_mismatch currency_mismatch temporal_order arithmetic_failure : PositionFault
  not_positive average_mismatch currency_missing no_average : PositionFault
  slippage_mismatch buy_below sell_above : PositionFault

pub record PaperFill : Type 0 where
  pub paper_run_id : ℕ
  pub paper_fill_id : ℕ
  pub paper_order_id : ℕ
  pub strategy_id : ℕ
  pub account_id : ℕ
  pub instrument_id : ℕ
  pub side : OrderSide
  pub quantity : ℕ
  pub execution_price : ℕ
  pub fee : ℕ
  pub source_session_id : ℕ
  pub source_ingest_sequence : ℕ
  pub occurred_at : ℕ
  pub reference_price : Option ℕ
  pub slippage_amount : ℕ
  pub fee_currency : Option ℕ

abbrev pub is_buy : OrderSide → Bool
is_buy OrderSide.buy = true
is_buy OrderSide.sell = false

-- `abs(a - b)` in a context of this precision.
abbrev pub distance : ℕ → ℕ → ℕ → ℕ
distance prec a b = if leb b a then sub prec a b else sub prec b a

-- `PaperFill.__post_init__`; a missing reference price is set to the execution price.
unfoldable pub check_paper_fill : ℕ → PaperFill → Outcome PositionFault (Unit {0})
check_paper_fill prec f =
    let reference = or_else f.reference_price f.execution_price in
    do
      raise_if (f.quantity == 0) PositionFault.not_positive
      raise_if (f.execution_price == 0) PositionFault.not_positive
      raise_if (reference == 0) PositionFault.not_positive
      raise_if (not (distance prec f.execution_price reference == f.slippage_amount))
          PositionFault.slippage_mismatch
      raise_if (is_buy f.side && ltb f.execution_price reference) PositionFault.buy_below
      raise_if (not (is_buy f.side) && ltb reference f.execution_price) PositionFault.sell_above
      raise_if (differ (f.fee == 0) (is_none f.fee_currency)) PositionFault.currency_missing

pub record PaperPosition : Type 0 where
  pub paper_run_id : ℕ
  pub paper_position_id : ℕ
  pub strategy_id : ℕ
  pub account_id : ℕ
  pub instrument_id : ℕ
  pub net_quantity : ℤ
  pub average_open_price : Option ℕ
  pub cumulative_fees : ℕ
  pub fee_currency : Option ℕ
  pub version : ℕ
  pub updated_at : ℕ

abbrev pub is_zero : Option ℕ → Bool
is_zero none = false
is_zero (some v) = v == 0

-- `PaperPosition.__post_init__`.
unfoldable pub check_paper_position : PaperPosition → Outcome PositionFault (Unit {0})
check_paper_position p = do
  raise_if (is_zero p.average_open_price) PositionFault.not_positive
  raise_if (p.version == 0) PositionFault.not_positive
  raise_if (differ (is_flat p.net_quantity) (is_none p.average_open_price))
      PositionFault.average_mismatch
  raise_if (differ (p.cumulative_fees == 0) (is_none p.fee_currency)) PositionFault.currency_missing

-- The precision of `_context`.
abbrev pub ledger_prec : ℕ
ledger_prec = 34

abbrev pub negated : ℕ → ℤ
negated zero = pos zero
negated (suc n) = negsuc n

-- The signed quantity of a fill.
abbrev pub delta : PaperFill → ℤ
delta f = if is_buy f.side then pos f.quantity else negated f.quantity

-- What the code takes from the previous position, if there is one.
pub record Prior : Type 0 where
  pub net : ℤ
  pub average : Option ℕ
  pub fees : ℕ
  pub currency : Option ℕ
  pub version : ℕ

abbrev pub prior : Option PaperPosition → Prior
prior none = record { net = pos 0; average = none; fees = 0; currency = none; version = 0 }
prior (some p) = record {
  net = p.net_quantity;
  average = p.average_open_price;
  fees = p.cumulative_fees;
  currency = p.fee_currency;
  version = p.version;
}

-- A sum that the trapping context lets through has at most 34 digits.
abbrev pub too_long : ℕ → Bool
too_long v = leb (10 ^ ledger_prec) v

-- The exact value `n / d`, in units of which `scale` are a unit of the grid, rounded in `_context`:
-- to its digits, and no finer than 10^-6176, the last digit at the lowest exponent. A result of
-- 10^6145 or more overflows.
unfoldable pub in_context : Grid → ℕ → ℕ → ℕ → Outcome PositionFault ℕ
in_context g scale n d =
    let digit = quantum (n / d) (10 ^ ledger_prec) (n / d) in
    let smallest = g.finest * scale / 10 ^ 33 in
    let v = round_at n d (if ltb digit smallest then smallest else digit) in
    do raise_if (leb (10 * g.coarsest * scale) v) PositionFault.arithmetic_failure; ok v

-- The average over the old quantity and the fill's, which have the same sign. The products and
-- their sum count units of which `lot` are a unit of the grid.
unfoldable pub weighted :
    Grid → ℕ → (old_quantity old_average quantity price new_quantity : ℕ) → Outcome PositionFault ℕ
weighted g lot q a d x n = do
  old ← in_context g lot (q * a) 1
  added ← in_context g lot (d * x) 1
  sum ← in_context g lot (old + added) 1
  in_context g 1 sum n

unfoldable pub weighted_with :
    Grid → ℕ → ℤ → Option ℕ → ℤ → ℤ → ℕ → Outcome PositionFault (Option ℕ)
weighted_with g lot old none d new price = raise PositionFault.no_average
weighted_with g lot old (some a) d new price = do
  v ← weighted g lot (magnitude old) a (magnitude d) price (magnitude new)
  ok (some v)

unfoldable pub new_average : Grid → ℕ → ℤ → Option ℕ → ℤ → ℤ → ℕ → Outcome PositionFault (Option ℕ)
new_average g lot old average d new price =
    if is_flat old
    then ok (some price)
    else if not (differ (is_long old) (is_long d))
    then weighted_with g lot old average d new price
    else if is_flat new
    then ok none
    else if not (differ (is_long new) (is_long old))
    then ok average
    else ok (some price)

-- The fields of the next position.
unfoldable pub booked : Prior → ℕ → PaperFill → Option ℕ → PaperPosition
booked b id f average = record {
  paper_run_id = f.paper_run_id;
  paper_position_id = id;
  strategy_id = f.strategy_id;
  account_id = f.account_id;
  instrument_id = f.instrument_id;
  net_quantity = b.net +ℤ delta f;
  average_open_price = average;
  cumulative_fees = b.fees + f.fee;
  fee_currency = if not (f.fee == 0) && is_none b.currency then f.fee_currency else b.currency;
  version = b.version + 1;
  updated_at = f.occurred_at;
}

-- The next position, once the keys and the time have been checked.
unfoldable pub book : Grid → ℕ → Prior → ℕ → PaperFill → Outcome PositionFault PaperPosition
book g lot b id f = do
  raise_if (not (f.fee == 0) && is_some b.currency && not (same b.currency f.fee_currency))
      PositionFault.currency_mismatch
  raise_if (too_long (magnitude (b.net +ℤ delta f))) PositionFault.arithmetic_failure
  raise_if (not (f.fee == 0) && too_long (b.fees + f.fee)) PositionFault.arithmetic_failure
  average ← new_average g lot b.net b.average (delta f) (b.net +ℤ delta f) f.execution_price
  raise_if (is_zero average) PositionFault.arithmetic_failure
  check_paper_position (booked b id f average)
  ok (booked b id f average)

abbrev pub is_key_of : PaperPosition → ℕ → PaperFill → Bool
is_key_of p id f =
    p.paper_run_id == f.paper_run_id
    && p.paper_position_id == id
    && p.strategy_id == f.strategy_id
    && p.account_id == f.account_id
    && p.instrument_id == f.instrument_id

-- The fill belongs to the position and is not older than it.
unfoldable pub check_continuation :
    Option PaperPosition → ℕ → PaperFill → Outcome PositionFault (Unit {0})
check_continuation none id f = ok tt
check_continuation (some p) id f = do
  raise_if (not (is_key_of p id f)) PositionFault.key_mismatch
  raise_if (ltb f.occurred_at p.updated_at) PositionFault.temporal_order

unfoldable pub apply_fill_to_position :
    Grid
    → ℕ
    → (ℕ → ℕ → ℕ → ℕ → ℕ)
    → Option PaperPosition
    → PaperFill
    → Outcome PositionFault PaperPosition
apply_fill_to_position g lot identify previous f =
    let id = identify f.paper_run_id f.strategy_id f.account_id f.instrument_id in
    do check_continuation previous id f; book g lot (prior previous) id f
