-- ===== src/Paper/Broker/Room.antt =====
-- What the broker's calls share, and `submit`, keep the counts within the limits.
use tx_trader.Common.{
  ℕ, suc, ◌≤◌, ◌≡◌, refl, Bool, false, ◌||◌, Option, none, some, List, [], ◌∷◌, ◌++◌, Ensures,
  Ensures->>=, Ensures-bind, Ensures-if, leb, length, eq_nat, eq_pair, eq_triple, arith,
}
use tx_trader.Paper.Contracts.{OrderIntent, check_paper_order}
use tx_trader.Paper.Events.{PaperRejection, PaperEventType, PaperEventPayload, PaperEvent}
use tx_trader.Paper.Broker.State.{
  OrderCommandResult, Broker, BrokerFault, within, BrokerState, OutcomeRecord, find_outcome,
  has_alternate, open_order_count,
}
use tx_trader.Paper.Broker.Commands.{
  matching_prec, make_event, with_submit, journal_rejection, append_rejection, stage_rejection,
  commit_new_submit_rejection, submit_key, accepted_order, accept_order, is_full, submit_within,
  submit_new, submit_known, submit_by, submit,
}

-- The counts are within the limits.
abbrev pub IsLimited : Broker → BrokerState → Type 0
IsLimited b s =
    (length s.events ≤ b.limits.max_events)
    × (length s.fills ≤ b.limits.max_fills)
    × (length s.positions ≤ b.limits.max_positions)

abbrev pub LimitedResult : Broker → OrderCommandResult × BrokerState → Type 0
LimitedResult b r = IsLimited b r.1

length-with_one :
    (es : List PaperEvent) (e : PaperEvent) → length (es ++ (e ∷ [])) ≡ suc (length es)
length-with_one [] e = refl
length-with_one (x ∷ es) e = omega (arith, length-with_one es e)

-- There is room for one event.
pub room_for_one :
    (es : List PaperEvent) (e : PaperEvent) (limit : ℕ)
    → leb limit (length es) ≡ false
    → length (es ++ (e ∷ [])) ≤ limit
room_for_one es e limit h = ground (arith, length-with_one es e)

journal_rejection-IsLimited :
    (b : Broker) (s : BrokerState) (r : PaperRejection) (session sequence : Option ℕ)
    → IsLimited b s
    → Ensures (journal_rejection b s r session sequence) (IsLimited b)
unfolding journal_rejection
journal_rejection-IsLimited b s r session sequence h =
    Ensures-if (IsLimited b) (leb b.limits.max_events (length s.events)) _ _ (λ _. h)
      λ room.
        Ensures->>= (IsLimited b)
          (make_event b s.next_paper_sequence PaperEventType.order_rejected
            (PaperEventPayload.of_rejection r) r.rejected_at session sequence)
          _ (λ e _. (room_for_one s.events e b.limits.max_events room, h.1, h.2))

pub append_rejection-IsLimited :
    (b : Broker) (s : BrokerState) (r : PaperRejection)
    → IsLimited b s
    → Ensures (append_rejection b s r) (IsLimited b)
unfolding append_rejection
append_rejection-IsLimited b s r h =
    Ensures-bind (IsLimited b) (IsLimited b) _ _ (journal_rejection-IsLimited b s r none none h)
      (λ t g. g)

accept_order-LimitedResult :
    (b : Broker) (s : BrokerState) (i : OrderIntent) (session sequence eligibility : Option ℕ)
    → leb b.limits.max_events (length s.events) ≡ false
    → IsLimited b s
    → Ensures (accept_order b s i session sequence eligibility) (LimitedResult b)
unfolding accept_order
accept_order-LimitedResult b s i session sequence eligibility room h =
    Ensures->>= (LimitedResult b)
      (within BrokerFault.of_order_check (check_paper_order matching_prec (accepted_order b i))) _
      λ _ _.
        Ensures->>= (LimitedResult b)
          (make_event b s.next_paper_sequence PaperEventType.order_accepted
            (PaperEventPayload.of_order (accepted_order b i)) i.created_at session sequence)
          _ (λ e _. (room_for_one s.events e b.limits.max_events room, h.1, h.2))

commit_new_submit_rejection-LimitedResult :
    (b : Broker) (s : BrokerState) (key : ℕ × ℕ) (digest : ℕ) (r : PaperRejection)
    → IsLimited b s
    → Ensures (commit_new_submit_rejection b s key digest r) (LimitedResult b)
unfolding commit_new_submit_rejection stage_rejection
commit_new_submit_rejection-LimitedResult b s key digest r h =
    Ensures-if (LimitedResult b) (leb b.limits.max_orders (length s.submit_outcomes)) _ _ (λ _. h)
      λ _.
        Ensures-bind (IsLimited b) (LimitedResult b) _ _
          (append_rejection-IsLimited b (with_submit s key _) r h) (λ t g. g)

or_false : (x y z : Bool) → (x || y || z) ≡ false → z ≡ false
or_false x y z h = ground arith

submit_new-LimitedResult :
    (b : Broker) (s : BrokerState) (i : OrderIntent) (effective : Option (Option ℕ))
    → IsLimited b s
    → Ensures (submit_new b s i effective) (LimitedResult b)
unfolding submit_new submit_within is_full
submit_new-LimitedResult b s i none h =
    commit_new_submit_rejection-LimitedResult b s (submit_key i) _ _ h
submit_new-LimitedResult b s i (some effective) h =
    Ensures-if (LimitedResult b) (leb b.limits.max_orders (length s.submit_outcomes)) _ _ (λ _. h)
      λ _.
        Ensures-if (LimitedResult b) (is_full b s) _ _
          (λ _.
            commit_new_submit_rejection-LimitedResult b (record s { effective_session = effective })
              (submit_key i) _ _ h)
          λ room.
            Ensures-bind (LimitedResult b) (LimitedResult b) _ _
              (accept_order-LimitedResult b (record s { effective_session = effective }) i _ _ _
                (or_false (leb b.limits.max_orders (length s.orders))
                  (leb b.limits.max_open_orders (open_order_count s.orders))
                  (leb b.limits.max_events (length s.events)) room)
                h)
              (λ r g. g)

submit_known-LimitedResult :
    (b : Broker) (s : BrokerState) (i : OrderIntent) (r : OutcomeRecord)
    (cached : Option OrderCommandResult)
    → IsLimited b s
    → Ensures (submit_known b s i r cached) (LimitedResult b)
unfolding submit_known stage_rejection
submit_known-LimitedResult b s i r (some cached) h = h
submit_known-LimitedResult b s i r none h =
    Ensures-if (LimitedResult b) (has_alternate r) _ _ (λ _. h)
      λ _.
        Ensures-bind (IsLimited b) (LimitedResult b) _ _
          (append_rejection-IsLimited b (with_submit s (submit_key i) _) _ h) (λ t g. g)

submit_by-LimitedResult :
    (b : Broker) (s : BrokerState) (i : OrderIntent) (r : Option OutcomeRecord)
    → IsLimited b s
    → Ensures (submit_by b s i r) (LimitedResult b)
unfolding submit_by
submit_by-LimitedResult b s i none h = submit_new-LimitedResult b s i _ h
submit_by-LimitedResult b s i (some r) h =
    submit_known-LimitedResult b s i r (find_outcome r (b.submit_digest i)) h

pub submit-LimitedResult :
    (b : Broker) (s : BrokerState) (i : OrderIntent)
    → IsLimited b s
    → Ensures (submit b s i) (LimitedResult b)
unfolding submit
submit-LimitedResult b s i h = submit_by-LimitedResult b s i _ h
