-- ===== src/Market/Tests/Lanes.antt =====
-- A tick waits while two connection events are taken.
use tx_trader.Common.{◌+◌, ◌≤◌, ◌≡◌, refl, true, none, some, arith, eq_nat, eq_pair, eq_triple}
use tx_trader.Market.Ingress.{
  CapturedKind, IngressLane, CapturedEvent, IngressLimits, BoundedIngress, empty_ingress, lane_of,
  publish_fifo, publish_lane, publish_keyed, try_publish, Popped, pop_control, pop_critical,
  with_burst, market_waits, try_pop,
}
use tx_trader.Market.Ingress.Fair.{CriticalPops, market_served}
use tx_trader.Market.Ingress.Bounded.{IsBounded}
use tx_trader.Market.Ingress.Runs.{Ran, Ran-IsBounded}

abbrev limits : IngressLimits
limits = record {
  control_capacity = 3;
  diagnostic_capacity = 3;
  quote_capacity = 3;
  tick_capacity = 3;
  dedupe_capacity = 2;
  priority_burst_limit = 2;
}

abbrev connection : CapturedEvent
connection = record {
  captured_kind = CapturedKind.connection_notification;
  session_id = 1;
  connection_generation = 1;
  sequence = 1;
  dedupe_candidate = none;
  market_no_raw = 0;
  stock_idx_raw = 0;
}

abbrev tick : CapturedEvent
tick = record connection { captured_kind = CapturedKind.tick_notification; sequence = 2 }

abbrev one_tick : BoundedIngress
one_tick = (try_publish limits empty_ingress tick).1

tick_waits : market_waits one_tick ≡ true
unfolding empty_ingress try_publish publish_keyed lane_of publish_lane publish_fifo
tick_waits = refl

abbrev with_connection : BoundedIngress
with_connection = (try_publish limits one_tick connection).1

one_taken :
    (t : BoundedIngress) × (try_pop limits with_connection
      ≡ some (IngressLane.control_lane, connection, t))
unfolding empty_ingress try_publish publish_keyed lane_of publish_lane publish_fifo try_pop
    with_burst pop_critical pop_control
one_taken = (_, refl)

one_overtakes : CriticalPops limits one_tick 1 one_taken.0
one_overtakes =
    CriticalPops.pops IngressLane.control_lane connection
      (CriticalPops.publishes connection CriticalPops.start) one_taken.1 refl

no_burst : (one_tick).priority_burst ≤ 2
unfolding empty_ingress try_publish publish_keyed lane_of publish_lane publish_fifo
no_burst = omega arith

market_served_example :
    (1 + (one_tick).priority_burst ≤ 2) × ((x : Popped) × (try_pop limits one_taken.0 ≡ some x))
market_served_example =
    market_served limits one_tick 1 one_taken.0 no_burst tick_waits one_overtakes

Ran-IsBounded_example : IsBounded limits one_taken.0
Ran-IsBounded_example = Ran-IsBounded limits one_taken.0 (
    Ran.popped IngressLane.control_lane connection
      (Ran.published connection (Ran.published tick Ran.fresh)) one_taken.1)
