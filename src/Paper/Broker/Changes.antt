-- ===== src/Paper/Broker/Changes.antt =====
-- What a call of the broker may do to the orders, the outcomes of submissions and the journal: the
-- broker's contract, as a relation between such states.
use tx_trader.Common.{
  ℕ, ◌+◌, ◌≡◌, false, Option, none, some, List, [], ◌∷◌, ◌++◌, ok, length, Dict, get, put, eq_nat,
  eq_pair,
}
use tx_trader.Paper.Contracts.{PaperOrder, check_paper_order}
use tx_trader.Paper.Transition.{validate_order_transition}
use tx_trader.Paper.Events.{PaperRejection, PaperEvent}
use tx_trader.Paper.Broker.State.{
  OrderCommandResult, Broker, OutcomeRecord, find_outcome, has_alternate, first_outcome,
  with_alternate, BrokerState,
}
use tx_trader.Paper.Broker.Commands.{matching_prec, submit_key, accepted_order}

-- The part of the state that the contract is about.
pub record Core : Type 0 where
  pub orders : Dict ℕ PaperOrder
  pub outcomes : Dict (ℕ × ℕ) OutcomeRecord
  pub events : List PaperEvent
  pub next : ℕ

abbrev pub core : BrokerState → Core
core s = record {
  orders = s.orders;
  outcomes = s.submit_outcomes;
  events = s.events;
  next = s.next_paper_sequence;
}

-- The events are numbered from `n` on.
abbrev pub NumberedFrom : ℕ → List PaperEvent → Type 0
NumberedFrom n [] = Unit {0}
NumberedFrom n (e ∷ es) = (e.paper_sequence ≡ n) × NumberedFrom (n + 1) es

-- A record may take the place of this one: a first one, or the same with a first alternate. Both
-- are of rejections.
pub data Extends : Option OutcomeRecord → OutcomeRecord → Type 0 where
  first :
      {digest : ℕ} {rejection : PaperRejection}
      → Extends none (first_outcome digest (OrderCommandResult.of_rejection rejection))
  alternate :
      {r : OutcomeRecord} {digest : ℕ} {rejection : PaperRejection}
      → find_outcome r digest ≡ none
      → has_alternate r ≡ false
      → Extends (some r) (with_alternate r digest (OrderCommandResult.of_rejection rejection))

-- One change: a recorded rejection, new events, an order's next snapshot, or a new order with its
-- outcome and its event.
pub data Change (b : Broker) : Core → Core → Type 0 where
  records :
      {c : Core} (key : ℕ × ℕ) (r : OutcomeRecord)
      → Extends (get c.outcomes key) r
      → Change b c (record c { outcomes = put c.outcomes key r })
  emits :
      {c : Core} (es : List PaperEvent)
      → NumberedFrom c.next es
      → Change b c (record c { events = c.events ++ es; next = c.next + length es })
  advances :
      {c : Core} (id : ℕ) (p q : PaperOrder)
      → get c.orders id ≡ some p
      → check_paper_order matching_prec q ≡ ok tt
      → validate_order_transition p q ≡ ok tt
      → Change b c (record c { orders = put c.orders q.paper_order_id q })
  accepts :
      {c : Core} (o : PaperOrder) (r : OutcomeRecord) (e : PaperEvent)
      → o ≡ accepted_order b o.intent
      → check_paper_order matching_prec o ≡ ok tt
      → get c.outcomes (submit_key o.intent) ≡ none
      → r ≡ first_outcome (b.submit_digest o.intent) (OrderCommandResult.of_order o)
      → e.paper_sequence ≡ c.next
      → Change b c (record {
        orders = put c.orders o.paper_order_id o;
        outcomes = put c.outcomes (submit_key o.intent) r;
        events = c.events ++ (e ∷ []);
        next = c.next + 1;
      })

-- Changes one after the other.
pub data Changes (b : Broker) : Core → Core → Type 0 where
  stay : {c : Core} → Changes b c c
  then : {c c' c'' : Core} → Changes b c c' → Change b c' c'' → Changes b c c''

pub Changes_trans :
    {b : Broker} {c c' c'' : Core} → Changes b c c' → Changes b c' c'' → Changes b c c''
Changes_trans h Changes.stay = h
Changes_trans h (Changes.then h' x) = Changes.then (Changes_trans h h') x

pub Changes_one : {b : Broker} {c c' : Core} → Change b c c' → Changes b c c'
Changes_one x = Changes.then Changes.stay x
