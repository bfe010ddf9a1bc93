-- ===== src/Live/Tests.antt =====
-- A concrete order and its evidence, and the theorems at work on them.
--
-- Amounts are counted in hundredths, the lot is one unit, and the digest adds up what it is given.
mod LocalCalls
mod Reductions
mod Redeliveries
use tx_trader.Common.{
  ℕ, ◌+◌, ◌*◌, ◌^◌, ◌≡◌, ◌≤◌, refl, Bool, true, false, Option, none, some, List, [], ◌∷◌, Outcome,
  ok, raise, arith, or_else, inl, inr, ◌⊎◌, Returns,
}
use tx_trader.Decimals.{
  Grid, quantum, half_even, round_at, round_to, add, sub, mul, div, in_bounds, default_prec,
}
use tx_trader.Decimals.Exact.{OnLot}
use tx_trader.Decimals.Bounds.{LotFits}
use tx_trader.Live.Contracts.{
  LiveSide, side_eq, LiveOrderType, type_eq, LiveTimeInForce, tif_eq, LiveOrderState, DispatchState,
  BrokerOrderEventType, CorrelationStatus, LiveFailureCode, Fault, LiveOrderIntent, intent_eq,
  check_amount, check_positive, check_optional, check_price, check_intent, LiveCommand,
  LiveCommandKind, check_command, PendingCommandBinding,
}
use tx_trader.Live.Events.{
  DispatchReceipt, BrokerCorrelation, NormalizedBrokerOrderEvent, NormalizedBrokerFillEvent,
  check_sequences, check_shape, check_order_event, check_fill_event, decreases_to,
  matches_working_change, Evidence, order_payload, fill_payload,
}
use tx_trader.Live.Order.{
  LiveOrder, check_amounts, check_quantities, check_times, check_target, check_pending,
  check_binding_state, check_progress, post_init,
}
use tx_trader.Live.Local.{fresh}
use tx_trader.Live.Valid.{IsValid}

abbrev pub grid : Grid
grid = record { one = 100; finest = 1; coarsest = 10 ^ 30 }

pub grid_fits : LotFits grid 2
grid_fits = record { on_grid = refl; below = omega arith }

-- Three contracts at 50.00.
abbrev pub intent : LiveOrderIntent
intent = record {
  strategy_id = 1;
  client_order_id = 2;
  account_id = 3;
  instrument_id = 4;
  side = LiveSide.buy;
  quantity = 300;
  order_type = LiveOrderType.limit;
  limit_price = some 5000;
  time_in_force = LiveTimeInForce.day;
  day_trade = false;
  created_at = 10;
}

pub intent_good : check_intent grid intent ≡ ok tt
unfolding check_intent check_positive check_optional check_price check_amount in_bounds round_to
    round_at quantum half_even
intent_good = refl

pub three_lots : OnLot default_prec 2 300
three_lots = record { lots = 3; is_whole = refl; few = omega arith }

pub one_lot : OnLot default_prec 2 100
one_lot = record { lots = 1; is_whole = refl; few = omega arith }

pub no_lots : OnLot default_prec 2 0
no_lots = record { lots = 0; is_whole = refl; few = omega arith }

-- The order in ACCEPTED, with nothing filled.
abbrev pub accepted : LiveOrder
accepted = record {
  intent = intent;
  state = LiveOrderState.accepted;
  total_quantity = 300;
  filled_quantity = 0;
  remaining_quantity = 300;
  average_fill_price = none;
  working_limit_price = some 5000;
  version = 4;
  updated_at = 30;
  accepted_at = some 30;
  pending_command = none;
}

pub accepted-IsValid : IsValid grid 2 accepted
unfolding check_positive check_optional check_price check_amount in_bounds round_to round_at quantum
    half_even check_times check_pending check_target check_binding_state check_progress
accepted-IsValid = record {
  total_on = three_lots;
  filled_on = no_lots;
  remaining_on = three_lots;
  total_pos = omega arith;
  parts = refl;
  within = omega arith;
  average_good = refl;
  limit_good = refl;
  priced = refl;
  averaged = refl;
  versioned = omega arith;
  timed = refl;
  targeted = refl;
  bound_good = refl;
  bound_fits = refl;
  progressed = refl;
  rest_open = λ _. omega arith;
}

-- The NEW command of the order, bound with its fingerprint, and the order that it leads to.
abbrev pub new_binding : PendingCommandBinding
new_binding = record { command = LiveCommand.new_order 11 intent 20; payload_fingerprint = 7 }

abbrev pub validated : LiveOrder
validated = record (fresh intent) { state = LiveOrderState.validated; version = 2; updated_at = 15 }

abbrev pub submitting : LiveOrder
submitting = record validated {
  state = LiveOrderState.submitting;
  version = 3;
  updated_at = 20;
  pending_command = some new_binding;
}

-- The order in FILLED, by a fill of three contracts at 50.00.
abbrev pub filled : LiveOrder
filled = record accepted {
  state = LiveOrderState.filled;
  filled_quantity = 300;
  remaining_quantity = 0;
  average_fill_price = some 5000;
  version = 5;
  updated_at = 40;
}

-- One contract of it.
abbrev pub partly_filled : LiveOrder
partly_filled = record accepted {
  state = LiveOrderState.partially_filled;
  filled_quantity = 100;
  remaining_quantity = 200;
  average_fill_price = some 5000;
  version = 5;
  updated_at = 40;
}

abbrev pub cancel_binding : PendingCommandBinding
cancel_binding = record { command = LiveCommand.cancel_order 12 2 35; payload_fingerprint = 8 }

-- From three contracts to two.
abbrev pub decrease_binding : PendingCommandBinding
decrease_binding = record {
  command = LiveCommand.decrease_order 13 2 300 200 35;
  payload_fingerprint = 9;
}

abbrev pub correlation : BrokerCorrelation
correlation = record {
  broker_session_generation = 1;
  adapter_received_sequence = 5;
  status = CorrelationStatus.confirmed;
  correlated_at = 30;
  submission_attempt_id = none;
  async_thread_id = none;
  proxy_stamp_id = none;
  broker_order_sequence = some 6;
  broker_book_no = none;
  broker_fill_id = some 77;
  execution_no = none;
  client_order_id = some 2;
}

-- An event of this type with this id, without a quantity or a price.
abbrev pub event : ℕ → BrokerOrderEventType → NormalizedBrokerOrderEvent
event id ty = record {
  event_id = id;
  account_id = 3;
  instrument_id = 4;
  event_type = ty;
  received_at = 30;
  broker_session_generation = 1;
  adapter_received_sequence = 5;
  correlation = correlation;
  occurred_at = none;
  failure_code = none;
  decreased_quantity = none;
  new_limit_price = none;
}

-- A fill of this many hundredths at 50.00.
abbrev pub fill_event : ℕ → ℕ → NormalizedBrokerFillEvent
fill_event id quantity = record {
  event_id = id;
  account_id = 3;
  instrument_id = 4;
  side = LiveSide.buy;
  quantity = quantity;
  execution_price = 5000;
  received_at = 40;
  broker_session_generation = 1;
  adapter_received_sequence = 5;
  correlation = correlation;
  occurred_at = none;
}

abbrev pub receipt : DispatchReceipt
receipt = record {
  client_command_id = 11;
  payload_fingerprint = 7;
  state = DispatchState.unknown;
  attempted_at = 25;
  completed_at = none;
  failure_code = some LiveFailureCode.dispatch_outcome_unknown;
}

-- A digest that tells prices apart.
abbrev pub digest : Evidence → ℕ
digest (Evidence.order_evidence account id ty code instrument price dec) = id + or_else price 0
digest (Evidence.fill_evidence account id price instrument quantity side) = price + quantity
digest (Evidence.dispatch_evidence r) = r.payload_fingerprint
