-- ===== src/Paper/Broker/Batching.antt =====
-- Every command of a batch makes only changes that the contract allows.
use tx_trader.Common.{
  ◌≡◌, refl, not, Option, none, some, Ensures, Ensures-bind, Ensures-if, leb, length, get, eq_nat,
  eq_pair, eq_triple,
}
use tx_trader.Paper.Contracts.{OrderIntent}
use tx_trader.Paper.Events.{CancelIntent, PaperRejection}
use tx_trader.Paper.Broker.State.{
  OrderCommandResult, Broker, OutcomeRecord, find_outcome, has_alternate, BrokerState,
}
use tx_trader.Paper.Broker.Commands.{submit_key, is_full}
use tx_trader.Paper.Broker.Cancel.{CancelEvaluation, can_cache}
use tx_trader.Paper.Broker.Changes.{Extends, Changes}
use tx_trader.Paper.Broker.Allowed.{
  Allowed, ResultAllowed, rejected-Allowed, records-Allowed, accept_order-Allowed,
}
use tx_trader.Paper.Broker.State.{Command, MarketDataEnvelope}
use tx_trader.Paper.Broker.Batched.{
  batch_rejected, batch_submit_new, batch_submit_known, batch_submit_by, stage_batch_submit,
  batch_cancel_after, batch_cancel_by, stage_batch_cancel, stage_batch_command,
}
use tx_trader.Paper.Broker.Cancelling.{
  IsSoundEvaluation, evaluate_cancel-IsSoundEvaluation, with_cancel-Allowed,
  stage_cancelled-Allowed,
}

batch_rejected-Allowed :
    (b : Broker) (s t : BrokerState) (r : PaperRejection) (m : MarketDataEnvelope)
    → Allowed b s t
    → Ensures (batch_rejected b t r m) (ResultAllowed b s)
unfolding batch_rejected
batch_rejected-Allowed b s t r m h =
    Ensures-bind (Allowed b s) (ResultAllowed b s) _ _
      (rejected-Allowed b s t r (some m.session_id) (some m.ingest_sequence) h) (λ u g. g)

batch_submit_new-Allowed :
    (b : Broker) (s : BrokerState) (i : OrderIntent) (m : MarketDataEnvelope)
    → get s.submit_outcomes (submit_key i) ≡ none
    → Ensures (batch_submit_new b s i m) (ResultAllowed b s)
unfolding batch_submit_new
batch_submit_new-Allowed b s i m fresh =
    Ensures-if (ResultAllowed b s) (leb b.limits.max_orders (length s.submit_outcomes)) _ _
      (λ _. Changes.stay)
      λ _.
        Ensures-if (ResultAllowed b s) (is_full b s) _ _
          (λ _.
            batch_rejected-Allowed b s _ _ m
              (records-Allowed b s (submit_key i) _ (rw fresh Extends.first)))
          (λ _. accept_order-Allowed b s i _ _ _ fresh)

batch_submit_known-Allowed :
    (b : Broker) (s : BrokerState) (i : OrderIntent) (m : MarketDataEnvelope) (r : OutcomeRecord)
    (cached : Option OrderCommandResult)
    → get s.submit_outcomes (submit_key i) ≡ some r
    → find_outcome r (b.submit_digest i) ≡ cached
    → Ensures (batch_submit_known b s i m r cached) (ResultAllowed b s)
unfolding batch_submit_known
batch_submit_known-Allowed b s i m r (some cached) known found = Changes.stay
batch_submit_known-Allowed b s i m r none known found =
    Ensures-if (ResultAllowed b s) (has_alternate r) _ _ (λ _. Changes.stay)
      λ single.
        batch_rejected-Allowed b s _ _ m
          (records-Allowed b s (submit_key i) _ (rw known (Extends.alternate found single)))

batch_submit_by-Allowed :
    (b : Broker) (s : BrokerState) (i : OrderIntent) (m : MarketDataEnvelope)
    (r : Option OutcomeRecord)
    → get s.submit_outcomes (submit_key i) ≡ r
    → Ensures (batch_submit_by b s i m r) (ResultAllowed b s)
unfolding batch_submit_by
batch_submit_by-Allowed b s i m none fresh = batch_submit_new-Allowed b s i m fresh
batch_submit_by-Allowed b s i m (some r) known = batch_submit_known-Allowed b s i m r _ known refl

batch_cancel_after-Allowed :
    (b : Broker) (s : BrokerState) (c : CancelIntent) (m : MarketDataEnvelope)
    (r : Option OutcomeRecord) (evaluation : CancelEvaluation)
    → IsSoundEvaluation (get s.orders c.paper_order_id) evaluation
    → Ensures (batch_cancel_after b s c m r evaluation) (ResultAllowed b s)
unfolding batch_cancel_after
batch_cancel_after-Allowed b s c m r (CancelEvaluation.already o) sound = Changes.stay
batch_cancel_after-Allowed b s c m r (CancelEvaluation.refused rejection) sound =
    Ensures-if (ResultAllowed b s) (not (can_cache b s r)) _ _ (λ _. Changes.stay)
      (λ _.
        batch_rejected-Allowed b s _ rejection m
          (with_cancel-Allowed b s c r (OrderCommandResult.of_rejection rejection)))
batch_cancel_after-Allowed b s c m r (CancelEvaluation.cancels q) sound =
    stage_cancelled-Allowed b s c r q (some m.session_id) (some m.ingest_sequence) sound

batch_cancel_by-Allowed :
    (b : Broker) (s : BrokerState) (c : CancelIntent) (m : MarketDataEnvelope)
    (r : Option OutcomeRecord) (cached : Option OrderCommandResult)
    → Ensures (batch_cancel_by b s c m r cached) (ResultAllowed b s)
unfolding batch_cancel_by
batch_cancel_by-Allowed b s c m r (some cached) = Changes.stay
batch_cancel_by-Allowed b s c m r none =
    Ensures-bind (IsSoundEvaluation (get s.orders c.paper_order_id)) (ResultAllowed b s) _ _
      (evaluate_cancel-IsSoundEvaluation b s c (get s.orders c.paper_order_id))
      (λ evaluation sound. batch_cancel_after-Allowed b s c m r evaluation sound)

pub stage_batch_command-Allowed :
    (b : Broker) (s : BrokerState) (c : Command) (m : MarketDataEnvelope)
    → Ensures (stage_batch_command b s c m) (ResultAllowed b s)
unfolding stage_batch_command stage_batch_submit stage_batch_cancel
stage_batch_command-Allowed b s (Command.place i) m = batch_submit_by-Allowed b s i m _ refl
stage_batch_command-Allowed b s (Command.withdraw c) m = batch_cancel_by-Allowed b s c m _ _
