-- ===== src/Paper/Broker/Submitting.antt =====
-- Every call of `submit` makes only changes that the contract allows.
use tx_trader.Common.{
  ℕ, ◌≡◌, refl, Option, none, some, Ensures, Ensures-bind, Ensures-if, leb, length, get, eq_nat,
  eq_pair, eq_triple,
}
use tx_trader.Paper.Contracts.{OrderIntent}
use tx_trader.Paper.Events.{PaperRejection}
use tx_trader.Paper.Broker.State.{
  OrderCommandResult, Broker, OutcomeRecord, find_outcome, has_alternate, first_outcome,
  BrokerState,
}
use tx_trader.Paper.Broker.Commands.{
  with_submit, stage_rejection, commit_new_submit_rejection, submit_key, is_full, submit_within,
  submit_new, submit_known, submit_by, submit,
}
use tx_trader.Paper.Broker.Changes.{Extends, Changes}
use tx_trader.Paper.Broker.Allowed.{
  Allowed, ResultAllowed, append_rejection-Allowed, records-Allowed, accept_order-Allowed,
}

commit_new_submit_rejection-Allowed :
    (b : Broker) (s : BrokerState) (key : ℕ × ℕ) (digest : ℕ) (r : PaperRejection)
    → get s.submit_outcomes key ≡ none
    → Ensures (commit_new_submit_rejection b s key digest r) (ResultAllowed b s)
unfolding commit_new_submit_rejection stage_rejection
commit_new_submit_rejection-Allowed b s key digest r fresh =
    Ensures-if (ResultAllowed b s) (leb b.limits.max_orders (length s.submit_outcomes)) _ _
      (λ _. Changes.stay)
      λ _.
        Ensures-bind (Allowed b s) (ResultAllowed b s) _ _
          (append_rejection-Allowed b s
            (with_submit s key (first_outcome digest (OrderCommandResult.of_rejection r))) r
            (records-Allowed b s key _ (rw fresh Extends.first)))
          (λ t h. h)

submit_within-Allowed :
    (b : Broker) (s : BrokerState) (i : OrderIntent) (effective : Option ℕ)
    → get s.submit_outcomes (submit_key i) ≡ none
    → Ensures (submit_within b s i effective) (ResultAllowed b s)
unfolding submit_within
submit_within-Allowed b s i effective fresh =
    Ensures-if (ResultAllowed b s) (leb b.limits.max_orders (length s.submit_outcomes)) _ _
      (λ _. Changes.stay)
      λ _.
        Ensures-if (ResultAllowed b s) (is_full b s) _ _
          (λ _.
            commit_new_submit_rejection-Allowed b (record s { effective_session = effective })
              (submit_key i) _ _ fresh)
          λ _.
            Ensures-bind (ResultAllowed b s) (ResultAllowed b s) _ _
              (accept_order-Allowed b (record s { effective_session = effective }) i _ _ _ fresh)
              (λ r h. h)

submit_new-Allowed :
    (b : Broker) (s : BrokerState) (i : OrderIntent) (effective : Option (Option ℕ))
    → get s.submit_outcomes (submit_key i) ≡ none
    → Ensures (submit_new b s i effective) (ResultAllowed b s)
unfolding submit_new
submit_new-Allowed b s i none fresh =
    commit_new_submit_rejection-Allowed b s (submit_key i) _ _ fresh
submit_new-Allowed b s i (some effective) fresh = submit_within-Allowed b s i effective fresh

submit_known-Allowed :
    (b : Broker) (s : BrokerState) (i : OrderIntent) (r : OutcomeRecord)
    (cached : Option OrderCommandResult)
    → get s.submit_outcomes (submit_key i) ≡ some r
    → find_outcome r (b.submit_digest i) ≡ cached
    → Ensures (submit_known b s i r cached) (ResultAllowed b s)
unfolding submit_known stage_rejection
submit_known-Allowed b s i r (some cached) known found = Changes.stay
submit_known-Allowed b s i r none known found =
    Ensures-if (ResultAllowed b s) (has_alternate r) _ _ (λ _. Changes.stay)
      λ single.
        Ensures-bind (Allowed b s) (ResultAllowed b s) _ _
          (append_rejection-Allowed b s _ _
            (records-Allowed b s (submit_key i) _ (rw known (Extends.alternate found single))))
          (λ t h. h)

submit_by-Allowed :
    (b : Broker) (s : BrokerState) (i : OrderIntent) (r : Option OutcomeRecord)
    → get s.submit_outcomes (submit_key i) ≡ r
    → Ensures (submit_by b s i r) (ResultAllowed b s)
unfolding submit_by
submit_by-Allowed b s i none fresh = submit_new-Allowed b s i _ fresh
submit_by-Allowed b s i (some r) known = submit_known-Allowed b s i r _ known refl

pub submit-Allowed :
    (b : Broker) (s : BrokerState) (i : OrderIntent) → Ensures (submit b s i) (ResultAllowed b s)
unfolding submit
submit-Allowed b s i = submit_by-Allowed b s i _ refl
