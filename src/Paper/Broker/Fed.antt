-- ===== src/Paper/Broker/Fed.antt =====
-- The commands of a batch leave alone what the broker knows of the market data.
use tx_trader.Common.{
  ℕ, ◌≡◌, refl, ◌∙◌, not, Option, none, some, List, [], ◌∷◌, Ensures, Ensures->>=, Ensures-bind,
  Ensures-if, leb, length, Dict, get, eq_nat, eq_pair, eq_triple, inl, inr, Bool-cases,
}
use tx_trader.Paper.Contracts.{OrderIntent, check_paper_order}
use tx_trader.Paper.Events.{CancelIntent, PaperRejection, PaperEventType, PaperEventPayload}
use tx_trader.Paper.Broker.State.{
  OrderCommandResult, Command, MarketDataEnvelope, Broker, BrokerFault, within, BrokerState,
  OutcomeRecord, find_outcome, has_alternate,
}
use tx_trader.Paper.Broker.Commands.{
  matching_prec, make_event, journal_rejection, accepted_order, accept_order, is_full,
}
use tx_trader.Paper.Broker.Cancel.{
  CancelEvaluation, evaluate_cancel, can_cache, with_cancel, stage_cancelled,
}
use tx_trader.Paper.Broker.Batched.{
  batch_rejected, batch_submit_new, batch_submit_known, batch_submit_by, stage_batch_submit,
  batch_cancel_after, batch_cancel_by, stage_batch_cancel, stage_batch_command,
}
use tx_trader.Paper.Broker.Process.{stage_commands}

-- What the broker knows of the market data.
pub record Feed : Type 0 where
  pub session : Option ℕ
  pub source : Option ℕ
  pub fingerprints : Dict ℕ ℕ
  pub decisions : Dict ℕ ℕ

abbrev pub feed : BrokerState → Feed
feed s = record {
  session = s.effective_session;
  source = s.bound_source;
  fingerprints = s.envelope_fingerprints;
  decisions = s.decision_fingerprints;
}

abbrev SameFeed : BrokerState → OrderCommandResult × BrokerState → Type 0
SameFeed s r = feed r.1 ≡ feed s

journal_rejection-feed :
    (b : Broker) (s : BrokerState) (r : PaperRejection) (session sequence : Option ℕ)
    → Ensures (journal_rejection b s r session sequence) (λ t. feed t ≡ feed s)
unfolding journal_rejection
journal_rejection-feed b s r session sequence =
    Ensures-if (λ t. feed t ≡ feed s) (leb b.limits.max_events (length s.events)) _ _ (λ _. refl)
      λ _.
        Ensures->>= (λ t. feed t ≡ feed s)
          (make_event b s.next_paper_sequence PaperEventType.order_rejected
            (PaperEventPayload.of_rejection r) r.rejected_at session sequence)
          _ (λ _ _. refl)

batch_rejected-SameFeed :
    (b : Broker) (s t : BrokerState) (r : PaperRejection) (m : MarketDataEnvelope)
    → feed t ≡ feed s
    → Ensures (batch_rejected b t r m) (SameFeed s)
unfolding batch_rejected
batch_rejected-SameFeed b s t r m h =
    Ensures-bind (λ u. feed u ≡ feed t) (SameFeed s) _ _
      (journal_rejection-feed b t r (some m.session_id) (some m.ingest_sequence)) (λ u h'. h' ∙ h)

accept_order-SameFeed :
    (b : Broker) (s : BrokerState) (i : OrderIntent) (session sequence eligibility : Option ℕ)
    → Ensures (accept_order b s i session sequence eligibility) (SameFeed s)
unfolding accept_order
accept_order-SameFeed b s i session sequence eligibility =
    Ensures->>= (SameFeed s)
      (within BrokerFault.of_order_check (check_paper_order matching_prec (accepted_order b i))) _
      λ _ _.
        Ensures->>= (SameFeed s)
          (make_event b s.next_paper_sequence PaperEventType.order_accepted
            (PaperEventPayload.of_order (accepted_order b i)) i.created_at session sequence)
          _ (λ _ _. refl)

batch_submit_known-SameFeed :
    (b : Broker) (s : BrokerState) (i : OrderIntent) (m : MarketDataEnvelope) (r : OutcomeRecord)
    (cached : Option OrderCommandResult)
    → Ensures (batch_submit_known b s i m r cached) (SameFeed s)
unfolding batch_submit_known
batch_submit_known-SameFeed b s i m r (some cached) = refl
batch_submit_known-SameFeed b s i m r none =
    Ensures-if (SameFeed s) (has_alternate r) _ _ (λ _. refl)
      (λ _. batch_rejected-SameFeed b s _ _ m refl)

batch_submit_by-SameFeed :
    (b : Broker) (s : BrokerState) (i : OrderIntent) (m : MarketDataEnvelope)
    (r : Option OutcomeRecord)
    → Ensures (batch_submit_by b s i m r) (SameFeed s)
unfolding batch_submit_by batch_submit_new
batch_submit_by-SameFeed b s i m none =
    Ensures-if (SameFeed s) (leb b.limits.max_orders (length s.submit_outcomes)) _ _ (λ _. refl)
      λ _.
        Ensures-if (SameFeed s) (is_full b s) _ _ (λ _. batch_rejected-SameFeed b s _ _ m refl)
          (λ _. accept_order-SameFeed b s i _ _ _)
batch_submit_by-SameFeed b s i m (some r) =
    batch_submit_known-SameFeed b s i m r (find_outcome r (b.submit_digest i))

feed-with_cancel :
    (b : Broker) (s : BrokerState) (c : CancelIntent) (r : Option OutcomeRecord)
    (outcome : OrderCommandResult)
    → feed (with_cancel b s c r outcome) ≡ feed s
unfolding with_cancel
feed-with_cancel b s c r outcome = elim (Bool-cases (can_cache b s r)) [
  | inl h ↦ rw h refl
  | inr h ↦ rw h refl
]

batch_cancel_after-SameFeed :
    (b : Broker) (s : BrokerState) (c : CancelIntent) (m : MarketDataEnvelope)
    (r : Option OutcomeRecord) (evaluation : CancelEvaluation)
    → Ensures (batch_cancel_after b s c m r evaluation) (SameFeed s)
unfolding batch_cancel_after stage_cancelled
batch_cancel_after-SameFeed b s c m r (CancelEvaluation.already o) = refl
batch_cancel_after-SameFeed b s c m r (CancelEvaluation.refused rejection) =
    Ensures-if (SameFeed s) (not (can_cache b s r)) _ _ (λ _. refl)
      (λ _.
        batch_rejected-SameFeed b s _ rejection m
          (feed-with_cancel b s c r (OrderCommandResult.of_rejection rejection)))
batch_cancel_after-SameFeed b s c m r (CancelEvaluation.cancels q) =
    Ensures->>= (SameFeed s)
      (make_event b s.next_paper_sequence PaperEventType.order_cancelled
        (PaperEventPayload.of_order q) c.requested_at (some m.session_id) (some m.ingest_sequence))
      _ (λ _ _. feed-with_cancel b s c r (OrderCommandResult.of_order q))

batch_cancel_by-SameFeed :
    (b : Broker) (s : BrokerState) (c : CancelIntent) (m : MarketDataEnvelope)
    (r : Option OutcomeRecord) (cached : Option OrderCommandResult)
    → Ensures (batch_cancel_by b s c m r cached) (SameFeed s)
unfolding batch_cancel_by
batch_cancel_by-SameFeed b s c m r (some cached) = refl
batch_cancel_by-SameFeed b s c m r none =
    Ensures->>= (SameFeed s) (evaluate_cancel b s c (get s.orders c.paper_order_id)) _
      (λ evaluation _. batch_cancel_after-SameFeed b s c m r evaluation)

stage_batch_command-SameFeed :
    (b : Broker) (s : BrokerState) (c : Command) (m : MarketDataEnvelope)
    → Ensures (stage_batch_command b s c m) (SameFeed s)
unfolding stage_batch_command stage_batch_submit stage_batch_cancel
stage_batch_command-SameFeed b s (Command.place i) m = batch_submit_by-SameFeed b s i m _
stage_batch_command-SameFeed b s (Command.withdraw c) m = batch_cancel_by-SameFeed b s c m _ _

pub stage_commands-feed :
    (b : Broker) (s : BrokerState) (cs : List Command) (m : MarketDataEnvelope)
    → Ensures (stage_commands b s cs m) (λ r. feed r.1 ≡ feed s)
unfolding stage_commands
stage_commands-feed b s [] m = refl
stage_commands-feed b s (c ∷ cs) m =
    Ensures-bind (SameFeed s) (λ r. feed r.1 ≡ feed s) _ _ (stage_batch_command-SameFeed b s c m)
      λ (result, t) h.
        Ensures-bind (λ r. feed r.1 ≡ feed t) (λ r. feed r.1 ≡ feed s) _ _
          (stage_commands-feed b t cs m) (λ r h'. h' ∙ h)
