-- ===== src/Paper/Broker/Kept.antt =====
-- A submission that returned an order remembers it.
use tx_trader.Common.{
  ℕ, ◌≡◌, refl, Option, none, some, Ensures, Ensures->>=, Ensures-bind, Ensures-if, leb, length,
  Dict, get, eq_nat, eq_pair, get-put_self, inl, inr, Option-cases,
}
use native.Mathlib.Omega.{arith}
use tx_trader.Paper.Contracts.{OrderIntent, PaperOrder, check_paper_order}
use tx_trader.Paper.Events.{PaperRejection, PaperEventType, PaperEventPayload}
use tx_trader.Paper.Broker.State.{
  OrderCommandResult, Broker, BrokerFault, within, OutcomeRecord, find_outcome, first_outcome,
  has_alternate, resolve_cached_outcome, BrokerState,
}
use tx_trader.Paper.Broker.Names.{order_id}
use tx_trader.Paper.Broker.Commands.{
  matching_prec, with_version, make_event, stage_rejection, commit_new_submit_rejection, submit_key,
  accepted_order, accept_order, is_full, submit_within, submit_new, submit_known, submit_by, submit,
}
use tx_trader.Paper.Broker.Memory.{Remembers}

-- A submission that returned an order remembers it, or the snapshot it came from.
abbrev pub IsKept : Broker → OrderIntent → OrderCommandResult × BrokerState → Type 0
IsKept b i (OrderCommandResult.of_rejection r, t) = Unit {0}
IsKept b i (OrderCommandResult.of_order o, t) =
    (x : PaperOrder) × Remembers t.submit_outcomes (submit_key i) (b.submit_digest i)
      (OrderCommandResult.of_order x)
    × (resolve_cached_outcome t.orders (OrderCommandResult.of_order x)
        ≡ OrderCommandResult.of_order o)

find-first_outcome :
    (digest : ℕ) (x : OrderCommandResult) → find_outcome (first_outcome digest x) digest ≡ some x
unfolding find_outcome
find-first_outcome digest x = ground arith

pub resolve-found :
    (orders : Dict ℕ PaperOrder) (x q : PaperOrder)
    → get orders x.paper_order_id ≡ some q
    → resolve_cached_outcome orders (OrderCommandResult.of_order x) ≡ OrderCommandResult.of_order q
unfolding resolve_cached_outcome
resolve-found orders x q h = rw (h, resolve_cached_outcome) refl

resolve-missing :
    (orders : Dict ℕ PaperOrder) (x : PaperOrder)
    → get orders x.paper_order_id ≡ none
    → resolve_cached_outcome orders (OrderCommandResult.of_order x) ≡ OrderCommandResult.of_order x
unfolding resolve_cached_outcome
resolve-missing orders x h = rw (h, resolve_cached_outcome) refl

cached-IsKept :
    (b : Broker) (s : BrokerState) (i : OrderIntent) (x : OrderCommandResult)
    → Remembers s.submit_outcomes (submit_key i) (b.submit_digest i) x
    → IsKept b i (resolve_cached_outcome s.orders x, s)
unfolding resolve_cached_outcome
cached-IsKept b s i (OrderCommandResult.of_rejection r) m = tt
cached-IsKept b s i (OrderCommandResult.of_order x) m =
    elim (Option-cases (get s.orders x.paper_order_id)) [
      | inl missing ↦ rw (missing, IsKept) (x, m, resolve-missing s.orders x missing)
      | inr (y, found) ↦ rw (found, IsKept) (x, m, resolve-found s.orders x y found)
    ]

accept_order-IsKept :
    (b : Broker) (s : BrokerState) (i : OrderIntent) (session sequence eligibility : Option ℕ)
    → Ensures (accept_order b s i session sequence eligibility) (IsKept b i)
unfolding accept_order
accept_order-IsKept b s i session sequence eligibility =
    Ensures->>= (IsKept b i)
      (within BrokerFault.of_order_check (check_paper_order matching_prec (accepted_order b i))) _
      λ _ _.
        Ensures->>= (IsKept b i)
          (make_event b s.next_paper_sequence PaperEventType.order_accepted
            (PaperEventPayload.of_order (accepted_order b i)) i.created_at session sequence)
          _
          (λ e _. (
            accepted_order b i,
            (
              first_outcome (b.submit_digest i) (OrderCommandResult.of_order (accepted_order b i)),
              get-put_self s.submit_outcomes (submit_key i) _,
              find-first_outcome (b.submit_digest i)
                  (OrderCommandResult.of_order (accepted_order b i)),
            ),
            resolve-found _ (accepted_order b i) (accepted_order b i) (
                get-put_self s.orders (order_id b i.strategy_id i.client_order_id)
                  (accepted_order b i)),
          ))

commit_new_submit_rejection-IsKept :
    (b : Broker) (s : BrokerState) (i : OrderIntent) (r : PaperRejection)
    → Ensures (commit_new_submit_rejection b s (submit_key i) (b.submit_digest i) r) (IsKept b i)
unfolding commit_new_submit_rejection
commit_new_submit_rejection-IsKept b s i r =
    Ensures-if (IsKept b i) (leb b.limits.max_orders (length s.submit_outcomes)) _ _ (λ _. tt)
      λ _.
        Ensures->>= (IsKept b i)
          (stage_rejection b s r (submit_key i)
            (first_outcome (b.submit_digest i) (OrderCommandResult.of_rejection r)))
          _ (λ _ _. tt)

submit_new-IsKept :
    (b : Broker) (s : BrokerState) (i : OrderIntent) (effective : Option (Option ℕ))
    → Ensures (submit_new b s i effective) (IsKept b i)
unfolding submit_new submit_within
submit_new-IsKept b s i none = commit_new_submit_rejection-IsKept b s i _
submit_new-IsKept b s i (some effective) =
    Ensures-if (IsKept b i) (leb b.limits.max_orders (length s.submit_outcomes)) _ _ (λ _. tt)
      λ _.
        Ensures-if (IsKept b i) (is_full b s) _ _
          (λ _.
            commit_new_submit_rejection-IsKept b (record s { effective_session = effective }) i _)
          λ _.
            Ensures-bind (IsKept b i) (IsKept b i) _ _
              (accept_order-IsKept b (record s { effective_session = effective }) i _ _ _)
              (λ r h. with_version-IsKept b i r h)
  where
    with_version-IsKept :
        (b : Broker) (i : OrderIntent) (r : OrderCommandResult × BrokerState)
        → IsKept b i r
        → IsKept b i (r.0, with_version r.1)
    with_version-IsKept b i (OrderCommandResult.of_rejection x, t) h = tt
    with_version-IsKept b i (OrderCommandResult.of_order x, t) h = h

submit_known-IsKept :
    (b : Broker) (s : BrokerState) (i : OrderIntent) (r : OutcomeRecord)
    (cached : Option OrderCommandResult)
    → get s.submit_outcomes (submit_key i) ≡ some r
    → find_outcome r (b.submit_digest i) ≡ cached
    → Ensures (submit_known b s i r cached) (IsKept b i)
unfolding submit_known
submit_known-IsKept b s i r (some x) known found = cached-IsKept b s i x (r, known, found)
submit_known-IsKept b s i r none known found =
    Ensures-if (IsKept b i) (has_alternate r) _ _ (λ _. tt)
      (λ _. Ensures->>= (IsKept b i) (stage_rejection b s _ (submit_key i) _) _ (λ _ _. tt))

submit_by-IsKept :
    (b : Broker) (s : BrokerState) (i : OrderIntent) (r : Option OutcomeRecord)
    → get s.submit_outcomes (submit_key i) ≡ r
    → Ensures (submit_by b s i r) (IsKept b i)
unfolding submit_by
submit_by-IsKept b s i none fresh = submit_new-IsKept b s i _
submit_by-IsKept b s i (some r) known = submit_known-IsKept b s i r _ known refl

pub submit-IsKept :
    (b : Broker) (s : BrokerState) (i : OrderIntent) → Ensures (submit b s i) (IsKept b i)
unfolding submit
submit-IsKept b s i = submit_by-IsKept b s i _ refl
