-- ===== src/Paper/Tests.antt =====
-- A paper order of three units that is filled in two steps.
mod Positions
mod Quotes
mod Brokers
mod Fills
mod Policies
use tx_trader.Common.{◌≡◌, ◌≢◌, refl, false, none, some, ok}
use tx_trader.Decimals.{add, round_to, round_at, quantum, half_even}
use tx_trader.Paper.Contracts.{
  OrderSide, OrderType, OrderStatus, OrderIntent, PaperOrder, order_side_eq, order_type_eq,
  order_intent_eq, check_limit, check_order_intent, check_status, check_accepted, check_paper_order,
}
use tx_trader.Paper.Transition.{
  can_transition, check_identity, check_fills, validate_order_transition,
}
use tx_trader.Paper.Progress.{Life, Progressed, Life-Progressed, closed_is_final}

abbrev pub intent : OrderIntent
intent = record {
  strategy_id = 1;
  client_order_id = 2;
  account_id = 3;
  instrument_id = 4;
  side = OrderSide.buy;
  quantity = 3;
  order_type = OrderType.limit;
  limit_price = some 50;
  day_trade = false;
  created_at = 10;
  source_session_id = none;
  source_ingest_sequence = none;
}

abbrev accepted : PaperOrder
accepted = record {
  paper_run_id = 5;
  paper_order_id = 6;
  intent = intent;
  status = OrderStatus.accepted;
  filled_quantity = 0;
  remaining_quantity = 3;
  average_fill_price = none;
  accepted_at = some 20;
  updated_at = 20;
}

abbrev partial : PaperOrder
partial = record accepted {
  status = OrderStatus.partially_filled;
  filled_quantity = 1;
  remaining_quantity = 2;
  average_fill_price = some 50;
  updated_at = 30;
}

abbrev filled : PaperOrder
filled = record partial {
  status = OrderStatus.filled;
  filled_quantity = 3;
  remaining_quantity = 0;
  updated_at = 40;
}

pub intent_good : check_order_intent intent ≡ ok tt
unfolding check_order_intent check_limit
intent_good = refl

accepted_good : check_paper_order 34 accepted ≡ ok tt
unfolding check_paper_order check_status check_accepted add round_to round_at quantum half_even
accepted_good = refl

partial_good : check_paper_order 34 partial ≡ ok tt
unfolding check_paper_order check_status check_accepted add round_to round_at quantum half_even
partial_good = refl

filled_good : check_paper_order 34 filled ≡ ok tt
unfolding check_paper_order check_status check_accepted add round_to round_at quantum half_even
filled_good = refl

first_step : validate_order_transition accepted partial ≡ ok tt
unfolding validate_order_transition check_identity check_fills can_transition order_intent_eq
    order_side_eq order_type_eq
first_step = refl

second_step : validate_order_transition partial filled ≡ ok tt
unfolding validate_order_transition check_identity check_fills can_transition order_intent_eq
    order_side_eq order_type_eq
second_step = refl

Life-Progressed_example : Progressed 2 accepted filled
Life-Progressed_example =
    Life-Progressed 34 2 intent_good accepted_good
      (Life.next (Life.next Life.here partial_good first_step) filled_good second_step)

closed_is_final_example : validate_order_transition filled partial ≢ ok tt
closed_is_final_example = closed_is_final filled partial refl
