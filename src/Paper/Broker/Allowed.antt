-- ===== src/Paper/Broker/Allowed.antt =====
-- What the broker's calls share makes only changes that the contract allows: events, rejections and
-- the acceptance of an order.
use tx_trader.Common.{
  ℕ, ◌≡◌, refl, Option, none, [], ◌∷◌, Outcome, ok, raise, Ensures, Ensures->>=, Ensures-bind,
  Ensures-if, Ensures-map, leb, length, get, eq_nat, eq_pair, eq_triple,
}
use tx_trader.Paper.Contracts.{OrderIntent, check_paper_order}
use tx_trader.Paper.Events.{PaperRejection, PaperEventType, PaperEventPayload, check_event}
use tx_trader.Paper.Broker.State.{
  OrderCommandResult, BrokerFault, within, Broker, OutcomeRecord, BrokerState,
}
use tx_trader.Paper.Broker.Commands.{
  matching_prec, event_of, make_event, with_submit, journal_rejection, append_rejection, submit_key,
  accepted_order, accept_order,
}
use tx_trader.Paper.Broker.Changes.{core, Extends, Change, Changes, Changes_trans, Changes_one}

pub within-eq_ok :
    {E F A : Type 0} (f : E → F) (m : Outcome E A) {a : A} → within f m ≡ ok a → m ≡ ok a
within-eq_ok f (ok a) h = cc
within-eq_ok f (raise e) h = cc

pub make_event-numbered :
    (b : Broker) (n : ℕ) (ty : PaperEventType) (p : PaperEventPayload) (t : ℕ)
    (session sequence : Option ℕ)
    → Ensures (make_event b n ty p t session sequence) (λ e. e.paper_sequence ≡ n)
unfolding make_event
make_event-numbered b n ty p t session sequence =
    Ensures->>= (λ e. e.paper_sequence ≡ n)
      (within BrokerFault.of_event_check (check_event (event_of b n ty p t session sequence))) _
      (λ _ _. refl)

-- A state that the contract allows after this one.
abbrev pub Allowed : Broker → BrokerState → BrokerState → Type 0
Allowed b s t = Changes b (core s) (core t)

abbrev pub ResultAllowed : Broker → BrokerState → OrderCommandResult × BrokerState → Type 0
ResultAllowed b s r = Allowed b s r.1

pub journal_rejection-Allowed :
    (b : Broker) (s : BrokerState) (r : PaperRejection) (session sequence : Option ℕ)
    → Ensures (journal_rejection b s r session sequence) (Allowed b s)
unfolding journal_rejection
journal_rejection-Allowed b s r session sequence =
    Ensures-if (Allowed b s) (leb b.limits.max_events (length s.events)) _ _ (λ _. Changes.stay)
      λ _.
        Ensures-bind (λ e. e.paper_sequence ≡ s.next_paper_sequence) (Allowed b s) _ _
          (make_event-numbered b s.next_paper_sequence PaperEventType.order_rejected
            (PaperEventPayload.of_rejection r) r.rejected_at session sequence)
          (λ e n. Changes_one (Change.emits (e ∷ []) (n, tt)))

-- An outcome is recorded, and the rejection is journalled.
pub rejected-Allowed :
    (b : Broker) (s t : BrokerState) (r : PaperRejection) (session sequence : Option ℕ)
    → Allowed b s t
    → Ensures (journal_rejection b t r session sequence) (Allowed b s)
rejected-Allowed b s t r session sequence h =
    Ensures-map (journal_rejection b t r session sequence)
      (journal_rejection-Allowed b t r session sequence) (λ u h'. Changes_trans h h')

pub append_rejection-Allowed :
    (b : Broker) (s t : BrokerState) (r : PaperRejection)
    → Allowed b s t
    → Ensures (append_rejection b t r) (Allowed b s)
unfolding append_rejection
append_rejection-Allowed b s t r h =
    Ensures-bind (Allowed b s) (Allowed b s) _ _ (rejected-Allowed b s t r none none h) (λ u g. g)

pub records-Allowed :
    (b : Broker) (s : BrokerState) (key : ℕ × ℕ) (r : OutcomeRecord)
    → Extends (get s.submit_outcomes key) r
    → Allowed b s (with_submit s key r)
records-Allowed b s key r h = Changes_one (Change.records key r h)

pub accept_order-Allowed :
    (b : Broker) (s : BrokerState) (i : OrderIntent) (session sequence eligibility : Option ℕ)
    → get s.submit_outcomes (submit_key i) ≡ none
    → Ensures (accept_order b s i session sequence eligibility) (ResultAllowed b s)
unfolding accept_order
accept_order-Allowed b s i session sequence eligibility fresh =
    Ensures->>= (ResultAllowed b s)
      (within BrokerFault.of_order_check (check_paper_order matching_prec (accepted_order b i))) _
      λ _ checked.
        Ensures-bind (λ e. e.paper_sequence ≡ s.next_paper_sequence) (ResultAllowed b s) _ _
          (make_event-numbered b s.next_paper_sequence PaperEventType.order_accepted
            (PaperEventPayload.of_order (accepted_order b i)) i.created_at session sequence)
          (λ e n.
            Changes_one (
              Change.accepts (accepted_order b i) _ e refl (within-eq_ok _ _ checked) fresh refl n))
