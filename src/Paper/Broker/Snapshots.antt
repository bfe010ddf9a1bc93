-- ===== src/Paper/Broker/Snapshots.antt =====
-- An order of the store changes only by valid transitions, whatever the calls.
use tx_trader.Common.{
  ℕ, suc, ◌≡◌, sym, ap, ◌∙◌, Option, none, some, ◌==◌, Dict, get, put, eq_nat, eq_pair,
  get-put_self, get-put_other, inl, inr, Bool-cases, ==_iff,
}
use mathlib.Core.Path.{subst}
use tx_trader.Paper.Contracts.{PaperOrder}
use tx_trader.Paper.Progress.{Life}
use tx_trader.Paper.Followed.{validate_order_transition-Followed}
use tx_trader.Paper.Broker.State.{Broker, OutcomeRecord, BrokerState, initial}
use tx_trader.Paper.Broker.Names.{order_id}
use tx_trader.Paper.Broker.Commands.{matching_prec, submit_key}
use tx_trader.Paper.Broker.Changes.{Core, Change, Changes}
use tx_trader.Paper.Broker.Processing.{Calls, Calls-Allowed}
use tx_trader.Paper.Broker.Separated.{IsSeparated, order_id-distinct}
use tx_trader.Paper.Broker.Owned.{Has, Has-put, IsOwned, IsSound, Changes-IsSound, Calls-IsSound}

-- The order is still there, after some number of valid transitions.
abbrev pub IsContinued : Dict ℕ PaperOrder → ℕ → PaperOrder → Type 0
IsContinued orders id p =
    (n : ℕ) × (q : PaperOrder) × (get orders id ≡ some q) × Life matching_prec n p q

Life_trans :
    {n m : ℕ} {p q r : PaperOrder}
    → Life matching_prec n p q
    → Life matching_prec m q r
    → (k : ℕ) × Life matching_prec k p r
Life_trans {n = n} h Life.here = (n, h)
Life_trans h (Life.next h' checked valid) =
    let (k, l) = Life_trans h h' in (suc k, Life.next l checked valid)

advanced-IsContinued :
    (b : Broker) (c : Core) (id : ℕ) (p q : PaperOrder) (k : ℕ) (o : PaperOrder)
    → IsSound b c
    → get c.orders id ≡ some p
    → q.paper_order_id ≡ id
    → Life matching_prec 1 p q
    → get c.orders k ≡ some o
    → IsContinued (put c.orders q.paper_order_id q) k o
advanced-IsContinued b c id p q k o s found own life h = elim (Bool-cases (q.paper_order_id == k)) [
  | inl hit ↦
      let same_key : q.paper_order_id ≡ k = (==_iff q.paper_order_id k).0 hit in
      let same_order : p ≡ o = cc in
      (
        1,
        q,
        rw (sym same_key) (get-put_self c.orders q.paper_order_id q),
        subst (λ x. Life matching_prec 1 x q) same_order life,
      )
  | inr miss ↦ (0, o, get-put_other c.orders q.paper_order_id k q miss ∙ h, Life.here)
]

-- An order of the store keeps its place when another key is accepted.
accepted-IsContinued :
    (b : Broker) (c : Core) (o : PaperOrder) (r : OutcomeRecord) (k : ℕ) (p : PaperOrder)
    → IsSeparated b (put c.outcomes (submit_key o.intent) r)
    → o.paper_order_id ≡ order_id b o.intent.strategy_id o.intent.client_order_id
    → get c.outcomes (submit_key o.intent) ≡ none
    → IsOwned b c.outcomes k p
    → get c.orders k ≡ some p
    → IsContinued (put c.orders o.paper_order_id o) k p
accepted-IsContinued b c o r k p separated new fresh owned h =
    elim (Bool-cases (o.paper_order_id == k)) [
      | inl hit ↦
          let same_key : o.paper_order_id ≡ k = (==_iff o.paper_order_id k).0 hit in
          let of_key = owned.of_key in
          let (r', taken) = owned.has_outcome in
          let same_submit : submit_key o.intent ≡ submit_key p.intent =
            order_id-distinct b (put c.outcomes (submit_key o.intent) r) (submit_key o.intent)
              (submit_key p.intent) separated (r, get-put_self c.outcomes (submit_key o.intent) r)
              (Has-put c.outcomes (submit_key o.intent) (submit_key p.intent) r (r', taken))
              (sym new ∙ same_key ∙ of_key) in
          let at_p : get c.outcomes (submit_key p.intent) ≡ none =
            subst (λ x. get c.outcomes x ≡ none) same_submit fresh in
          cc
      | inr miss ↦ (0, p, get-put_other c.orders o.paper_order_id k o miss ∙ h, Life.here)
    ]

Change-IsContinued :
    {b : Broker} {c d : Core}
    → IsSeparated b d.outcomes
    → IsSound b c
    → Change b c d
    → (k : ℕ) (p : PaperOrder) → get c.orders k ≡ some p
    → IsContinued d.orders k p
Change-IsContinued separated s (Change.records key r e) k p h = (0, p, h, Life.here)
Change-IsContinued separated s (Change.emits es n) k p h = (0, p, h, Life.here)
Change-IsContinued {b} {c} separated s (Change.advances id p q found checked valid) k o h =
    let f = validate_order_transition-Followed p q valid in
    let own_id = (s.orders id p found).own_id in
    advanced-IsContinued b c id p q k o s found (sym f.same_order ∙ own_id)
      (Life.next Life.here checked valid) h
Change-IsContinued {b} {c} separated s (Change.accepts o r e new checked fresh first n) k p h =
    accepted-IsContinued b c o r k p separated (ap (λ x. x.paper_order_id) new) fresh
      (s.orders k p h) h

-- The outcomes keep their keys.
Change-Has :
    {b : Broker} {c d : Core} → Change b c d → (k : ℕ × ℕ) → Has c.outcomes k → Has d.outcomes k
Change-Has {c = c} (Change.records key r e) k h = Has-put c.outcomes key k r h
Change-Has (Change.emits es n) k h = h
Change-Has (Change.advances id p q found checked valid) k h = h
Change-Has {c = c} (Change.accepts o r e new checked fresh first n) k h =
    Has-put c.outcomes (submit_key o.intent) k r h

-- What holds of more submissions holds of fewer.
IsSeparated-fewer :
    {b : Broker} {c d : Core} → Change b c d → IsSeparated b d.outcomes → IsSeparated b c.outcomes
IsSeparated-fewer x s = record {
  spelled = s.spelled;
  free = λ k h. s.free k (Change-Has x k h);
  apart = λ k k' h h'. s.apart k k' (Change-Has x k h) (Change-Has x k' h');
}

pub Changes-IsContinued :
    {b : Broker} {c d : Core}
    → IsSeparated b d.outcomes
    → IsSound b c
    → Changes b c d
    → (k : ℕ) (p : PaperOrder) → get c.orders k ≡ some p
    → IsContinued d.orders k p
Changes-IsContinued separated s Changes.stay k p h = (0, p, h, Life.here)
Changes-IsContinued separated s (Changes.then x y) k p h =
    let (n, q, found, life) = Changes-IsContinued (IsSeparated-fewer y separated) s x k p h in
    let (n', q', found', life') = Change-IsContinued separated (Changes-IsSound x s) y k q found in
    let (m, whole) = Life_trans life life' in (m, q', found', whole)

-- Take a broker that started empty, and whose recorded submissions can be told apart: different ids
-- are different texts, no strategy id contains the unit separator, and uuid5 does not collide on
-- their names. An order that is in its store after some calls is there after any further calls, and
-- its snapshot then comes from the earlier one by validated transitions that pass the order's
-- checks.
pub Calls-IsContinued :
    (b : Broker) (session : Option ℕ) {s t : BrokerState}
    → IsSeparated b t.submit_outcomes
    → Calls b (initial session) s
    → Calls b s t
    → (id : ℕ) (p : PaperOrder) → get s.orders id ≡ some p
    → IsContinued t.orders id p
Calls-IsContinued b session separated h h' id p found =
    Changes-IsContinued separated (Calls-IsSound b session h) (Calls-Allowed h') id p found
