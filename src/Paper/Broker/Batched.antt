-- ===== src/Paper/Broker/Batched.antt =====
-- tx_trade/orders/paper_broker.py: the commands of a decision batch.
use tx_trader.Common.{
  not, Option, none, some, ok, ◌>>=◌, leb, if◌then◌else◌, length, get, eq_nat, eq_pair, eq_triple,
}
use tx_trader.Paper.Contracts.{OrderIntent}
use tx_trader.Paper.Events.{RejectionCode, CancelIntent, PaperRejection}
use tx_trader.Paper.Broker.State.{
  OrderCommandResult, Command, MarketDataEnvelope, Broker, OutcomeRecord, find_outcome,
  has_alternate, first_outcome, with_alternate, BrokerState, resolve_cached_outcome,
}
use tx_trader.Paper.Broker.Commands.{
  Result, with_submit, journal_rejection, submit_key, submit_rejection, accept_order, is_full,
}
use tx_trader.Paper.Broker.Cancel.{
  CancelEvaluation, evaluate_cancel, cancel_key, can_cache, with_cancel, stage_cancelled, cached_in,
}

-- A rejection that is the result, journalled.
unfoldable pub batch_rejected : Broker → BrokerState → PaperRejection → MarketDataEnvelope → Result
batch_rejected b s r m = do
  t ← journal_rejection b s r (some m.session_id) (some m.ingest_sequence)
  ok (OrderCommandResult.of_rejection r, t)

-- The part of `_stage_batch_submit` after the cache.
unfoldable pub batch_submit_new : Broker → BrokerState → OrderIntent → MarketDataEnvelope → Result
batch_submit_new b s i m =
    let rejection = submit_rejection b i RejectionCode.capacity_exceeded in
    if leb b.limits.max_orders (length s.submit_outcomes)
    then ok (OrderCommandResult.of_rejection rejection, s)
    else if is_full b s
    then batch_rejected b
        (with_submit s (submit_key i)
          (first_outcome (b.submit_digest i) (OrderCommandResult.of_rejection rejection)))
        rejection m
    else accept_order b s i (some m.session_id) (some m.ingest_sequence) (some m.ingest_sequence)

unfoldable pub batch_submit_known :
    Broker
    → BrokerState
    → OrderIntent
    → MarketDataEnvelope
    → OutcomeRecord
    → Option OrderCommandResult
    → Result
batch_submit_known b s i m r (some cached) = ok (resolve_cached_outcome s.orders cached, s)
batch_submit_known b s i m r none =
    let conflict = submit_rejection b i RejectionCode.idempotency_conflict in
    if has_alternate r
    then ok (OrderCommandResult.of_rejection conflict, s)
    else batch_rejected b
        (with_submit s (submit_key i)
          (with_alternate r (b.submit_digest i) (OrderCommandResult.of_rejection conflict)))
        conflict m

unfoldable pub batch_submit_by :
    Broker → BrokerState → OrderIntent → MarketDataEnvelope → Option OutcomeRecord → Result
batch_submit_by b s i m none = batch_submit_new b s i m
batch_submit_by b s i m (some r) = batch_submit_known b s i m r (find_outcome r (b.submit_digest i))

-- `_stage_batch_submit`
unfoldable pub stage_batch_submit : Broker → BrokerState → OrderIntent → MarketDataEnvelope → Result
stage_batch_submit b s i m = batch_submit_by b s i m (get s.submit_outcomes (submit_key i))

unfoldable pub batch_cancel_after :
    Broker
    → BrokerState
    → CancelIntent
    → MarketDataEnvelope
    → Option OutcomeRecord
    → CancelEvaluation
    → Result
batch_cancel_after b s c m r (CancelEvaluation.already o) = ok (OrderCommandResult.of_order o, s)
batch_cancel_after b s c m r (CancelEvaluation.refused rejection) =
    if not (can_cache b s r)
    then ok (OrderCommandResult.of_rejection rejection, s)
    else batch_rejected b (with_cancel b s c r (OrderCommandResult.of_rejection rejection))
        rejection m
batch_cancel_after b s c m r (CancelEvaluation.cancels o) =
    stage_cancelled b s c r o (some m.session_id) (some m.ingest_sequence)

unfoldable pub batch_cancel_by :
    Broker
    → BrokerState
    → CancelIntent
    → MarketDataEnvelope
    → Option OutcomeRecord
    → Option OrderCommandResult
    → Result
batch_cancel_by b s c m r (some cached) = ok (resolve_cached_outcome s.orders cached, s)
batch_cancel_by b s c m r none = do
  evaluation ← evaluate_cancel b s c (get s.orders c.paper_order_id)
  batch_cancel_after b s c m r evaluation

-- `_stage_batch_cancel`
unfoldable pub stage_batch_cancel :
    Broker → BrokerState → CancelIntent → MarketDataEnvelope → Result
stage_batch_cancel b s c m =
    let r = get s.cancel_outcomes (cancel_key c) in
    batch_cancel_by b s c m r (cached_in r (b.cancel_digest c))

-- `_stage_batch_command`
unfoldable pub stage_batch_command : Broker → BrokerState → Command → MarketDataEnvelope → Result
stage_batch_command b s (Command.place i) m = stage_batch_submit b s i m
stage_batch_command b s (Command.withdraw c) m = stage_batch_cancel b s c m
