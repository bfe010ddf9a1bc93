-- ===== src/Paper/Tests/Positions.antt =====
-- A short position that a purchase turns into a long one.
use tx_trader.Common.{
  ℕ, ◌+◌, ◌^◌, ◌≡◌, refl, false, none, some, ok, raise, pos, negsuc, ◌+ℤ◌, magnitude, Returns,
}
use tx_trader.Decimals.{Grid, sub, round_to, round_at, quantum, half_even}
use tx_trader.Paper.Contracts.{OrderSide}
use tx_trader.Paper.Position.{
  PositionFault, in_context, PaperFill, PaperPosition, prior, check_paper_fill,
  check_paper_position, check_continuation, new_average, weighted, weighted_with, is_zero, too_long,
  booked, book, apply_fill_to_position,
}
use tx_trader.Common.{Option, List, [], ◌∷◌, length}
use tx_trader.Paper.Conservation.{apply_all, net_of, fees_of, fills_conserved}
use tx_trader.Paper.Booking.{Booked, apply_fill_to_position-Booked}

abbrev grid : Grid
grid = record { one = 1; finest = 1; coarsest = 10 ^ 6_144 }

-- Three units sold at 50.
abbrev short : PaperPosition
short = record {
  paper_run_id = 5;
  paper_position_id = 13;
  strategy_id = 1;
  account_id = 3;
  instrument_id = 4;
  net_quantity = negsuc 2;
  average_open_price = some 50;
  cumulative_fees = 0;
  fee_currency = none;
  version = 1;
  updated_at = 20;
}

-- Five units bought at 52, for a fee of 7.
abbrev purchase : PaperFill
purchase = record {
  paper_run_id = 5;
  paper_fill_id = 8;
  paper_order_id = 6;
  strategy_id = 1;
  account_id = 3;
  instrument_id = 4;
  side = OrderSide.buy;
  quantity = 5;
  execution_price = 52;
  fee = 7;
  source_session_id = 9;
  source_ingest_sequence = 0;
  occurred_at = 30;
  reference_price = some 51;
  slippage_amount = 1;
  fee_currency = some 1;
}

abbrev identify : ℕ → ℕ → ℕ → ℕ → ℕ
identify run strategy account instrument = run + strategy + account + instrument

short_good : check_paper_position short ≡ ok tt
unfolding check_paper_position
short_good = refl

purchase_good : check_paper_fill 34 purchase ≡ ok tt
unfolding check_paper_fill sub round_to round_at quantum half_even
purchase_good = refl

belongs : check_continuation (some short) (identify 5 1 3 4) purchase ≡ ok tt
unfolding check_continuation
belongs = refl

-- Ten at 10^6144 and ten more: each price is finite, and their sum overflows.
overflows :
    new_average grid 1 (pos 10) (some (10 ^ 6_144)) (pos 10) (pos 20) (10 ^ 6_144)
    ≡ raise PositionFault.arithmetic_failure
unfolding new_average weighted_with weighted in_context quantum round_at half_even
overflows = refl

turned_long :
    Returns
      (apply_fill_to_position grid 1 identify (some short) purchase)
      (λ q. (q.net_quantity ≡ pos 2) × (q.average_open_price ≡ some 52))
unfolding apply_fill_to_position check_continuation book booked new_average weighted_with
    check_paper_position ◌+ℤ◌
turned_long = (refl, refl)

-- One unit more is sold.
abbrev sale : PaperFill
sale = record purchase {
  paper_fill_id = 9;
  side = OrderSide.sell;
  quantity = 1;
  reference_price = some 53;
  occurred_at = 40;
}

sale_good : check_paper_fill 34 sale ≡ ok tt
unfolding check_paper_fill sub round_to round_at quantum half_even
sale_good = refl

sale_belongs : check_continuation (some short) (identify 5 1 3 4) sale ≡ ok tt
unfolding check_continuation
sale_belongs = refl

few : too_long (magnitude (negsuc 2 +ℤ negsuc 0)) ≡ false
unfolding ◌+ℤ◌
few = refl

sold_average :
    Returns
      (weighted_with grid 1 (negsuc 2) (some 50) (negsuc 0) (negsuc 2 +ℤ negsuc 0) 52)
      (λ a. is_zero a ≡ false)
unfolding weighted_with weighted in_context quantum round_at half_even ◌+ℤ◌
sold_average = refl

apply_fill_to_position-Booked_example :
    Returns
      (apply_fill_to_position grid 1 identify (some short) sale)
      (λ q. Booked (prior (some short)) sale q)
apply_fill_to_position-Booked_example =
    apply_fill_to_position-Booked grid 1 34 identify (some short) sale short_good sale_belongs
      sale_good refl few refl λ open_before same_sign. sold_average

abbrev both : List PaperFill
both = purchase ∷ sale ∷ []

both_booked :
    (last : Option PaperPosition) × (apply_all grid 1 identify (some short) both ≡ ok last)
unfolding apply_all apply_fill_to_position check_continuation book booked new_average weighted_with
    check_paper_position ◌+ℤ◌
both_booked = (_, refl)

fills_conserved_example :
    ((prior both_booked.0).net ≡ negsuc 2 +ℤ net_of both)
    × ((prior both_booked.0).fees ≡ 0 + fees_of both)
    × ((prior both_booked.0).version ≡ 1 + length both)
fills_conserved_example = fills_conserved grid 1 identify (some short) both both_booked.1
