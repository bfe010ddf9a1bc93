-- ===== src/Paper/Broker/Owned.antt =====
-- Every order of the store stands under the id of its own key, passes its checks, and has a recorded
-- outcome of its submission.
use tx_trader.Common.{
  ℕ, ◌≡◌, refl, sym, ap, ◌∙◌, false, Option, none, some, ok, Dict, get, put, Eq, eq_nat, eq_pair,
  get-put_self, get-put_other, inl, inr, Bool-cases,
}
use mathlib.Core.Path.{subst}
use mathlib.Core.Logic.{◌⊎◌, ◌≢◌}
use native.Mathlib.Omega.{arith}
use tx_trader.Paper.Contracts.{PaperOrder, check_paper_order}
use tx_trader.Paper.Followed.{Followed, validate_order_transition-Followed}
use tx_trader.Paper.Events.{PaperRejection}
use tx_trader.Paper.Broker.State.{
  OrderCommandResult, Broker, OutcomeRecord, find_outcome, first_outcome, with_alternate,
  has_alternate, BrokerState, initial,
}
use tx_trader.Paper.Broker.Names.{order_id}
use tx_trader.Paper.Broker.Commands.{matching_prec, submit_key}
use tx_trader.Paper.Broker.Changes.{Core, core, Extends, Change, Changes}
use tx_trader.Paper.Broker.Processing.{Calls, Calls-Allowed}

-- The key is present.
abbrev pub Has : {K V : Type 0} ⦃e : Eq K⦄ → Dict K V → K → Type 0
Has {V = V} d k = (v : V) × (get d k ≡ some v)

-- A dict loses no key by an assignment.
pub Has-put :
    {K V : Type 0} ⦃e : Eq K⦄ (d : Dict K V) (k k' : K) (v : V) → Has d k' → Has (put d k v) k'
Has-put ⦃e⦄ d k k' v (u, h) = elim (Bool-cases (e.beq k k')) [
  | inl hit ↦
      let same_key : k ≡ k' = (e.beq_iff k k').0 hit in (v, rw (sym same_key) (get-put_self d k v))
  | inr miss ↦ (u, get-put_other d k k' v miss ∙ h)
]

-- What an assignment changes.
pub get-put :
    {K V : Type 0} ⦃e : Eq K⦄ (P : K → V → Type 0) (d : Dict K V) (k : K) (v : V)
    → P k v
    → ((k' : K) (u : V) → e.beq k k' ≡ false → get d k' ≡ some u → P k' u)
    → (k' : K) (u : V) → get (put d k v) k' ≡ some u
    → P k' u
get-put ⦃e⦄ P d k v new old k' u h = elim (Bool-cases (e.beq k k')) [
  | inl hit ↦
      let same_key : k ≡ k' = (e.beq_iff k k').0 hit in
      let found : get (put d k v) k' ≡ some v = rw (sym same_key) (get-put_self d k v) in
      let same_value : v ≡ u = cc in subst (λ x. P x u) same_key (subst (P k) same_value new)
  | inr miss ↦ old k' u miss (sym (get-put_other d k k' v miss) ∙ h)
]

pub record IsOwned (b : Broker) (outcomes : Dict (ℕ × ℕ) OutcomeRecord) (id : ℕ) (o : PaperOrder)
    : Type 0 where
  pub own_id : o.paper_order_id ≡ id
  pub of_key : id ≡ order_id b o.intent.strategy_id o.intent.client_order_id
  pub checked : check_paper_order matching_prec o ≡ ok tt
  pub has_outcome : Has outcomes (submit_key o.intent)

pub record IsStored (orders : Dict ℕ PaperOrder) (r : OutcomeRecord) : Type 0 where
  pub stored :
      (digest : ℕ) (o : PaperOrder)
      → find_outcome r digest ≡ some (OrderCommandResult.of_order o)
      → Has orders o.paper_order_id

-- The orders are owned, and the id of an order that is an outcome is in the store.
pub record IsSound (b : Broker) (c : Core) : Type 0 where
  pub orders : (id : ℕ) (o : PaperOrder) → get c.orders id ≡ some o → IsOwned b c.outcomes id o
  pub outcomes :
      (key : ℕ × ℕ) (r : OutcomeRecord) → get c.outcomes key ≡ some r → IsStored c.orders r

-- An alternate that is a rejection is no order.
find-with_alternate :
    (r : OutcomeRecord) (d : ℕ) (x : OrderCommandResult) (digest : ℕ) (o : PaperOrder)
    → has_alternate r ≡ false
    → find_outcome (with_alternate r d x) digest ≡ some (OrderCommandResult.of_order o)
    → (find_outcome r digest ≡ some (OrderCommandResult.of_order o))
      ⊎ (x ≡ OrderCommandResult.of_order o)
unfolding find_outcome
find-with_alternate r d x digest o single h = ground arith

find-first_rejection :
    (d : ℕ) (x : PaperRejection) (digest : ℕ) (o : PaperOrder)
    → find_outcome (first_outcome d (OrderCommandResult.of_rejection x)) digest
      ≢ some (OrderCommandResult.of_order o)
unfolding find_outcome
find-first_rejection d x digest o h = ground arith

find-first_order :
    (d : ℕ) (o : PaperOrder) (digest : ℕ) (o' : PaperOrder)
    → find_outcome (first_outcome d (OrderCommandResult.of_order o)) digest
      ≡ some (OrderCommandResult.of_order o')
    → o ≡ o'
unfolding find_outcome
find-first_order d o digest o' h = ground arith

Extends-IsStored :
    (b : Broker) (c : Core) (key : ℕ × ℕ) (r : OutcomeRecord)
    → IsSound b c
    → Extends (get c.outcomes key) r
    → IsStored c.orders r
Extends-IsStored b c key r s e = go (get c.outcomes key) r refl e
  where
    go :
        (o : Option OutcomeRecord) (r : OutcomeRecord)
        → get c.outcomes key ≡ o
        → Extends o r
        → IsStored c.orders r
    go none _ h (Extends.first {digest = d} {rejection = x}) = record {
      stored = λ digest o f. absurd (find-first_rejection d x digest o f);
    }
    go (some r) _ h (Extends.alternate {digest = d} {rejection = x} missing single) = record {
      stored = λ digest o f. elim (find-with_alternate r d _ digest o single f) [
        | inl g ↦ (s.outcomes key r h).stored digest o g
        | inr e ↦ cc
      ];
    }

-- The orders may change as long as none is lost.
IsStored-kept :
    (orders changed : Dict ℕ PaperOrder) (r : OutcomeRecord)
    → ((id : ℕ) → Has orders id → Has changed id)
    → IsStored orders r
    → IsStored changed r
IsStored-kept orders changed r kept s = record {
  stored = λ digest o f. kept _ (s.stored digest o f);
}

-- The outcomes may change as long as none is lost.
IsOwned-kept :
    (b : Broker) (outcomes changed : Dict (ℕ × ℕ) OutcomeRecord) (id : ℕ) (o : PaperOrder)
    → ((key : ℕ × ℕ) → Has outcomes key → Has changed key)
    → IsOwned b outcomes id o
    → IsOwned b changed id o
IsOwned-kept b outcomes changed id o kept h = record {
  own_id = h.own_id;
  of_key = h.of_key;
  checked = h.checked;
  has_outcome = kept _ h.has_outcome;
}

advanced-IsOwned :
    (b : Broker) (outcomes : Dict (ℕ × ℕ) OutcomeRecord) (id : ℕ) (p q : PaperOrder)
    → IsOwned b outcomes id p
    → check_paper_order matching_prec q ≡ ok tt
    → Followed p q
    → IsOwned b outcomes q.paper_order_id q
advanced-IsOwned b outcomes id p q h checked f =
    let same_intent : p.intent ≡ q.intent = f.same_intent in
    let own_id = h.own_id in
    let same_order = f.same_order in
    let of_key = h.of_key in
    record {
      own_id = refl;
      of_key =
          sym same_order
          ∙ own_id
          ∙ of_key
          ∙ ap (λ i. order_id b i.strategy_id i.client_order_id) same_intent;
      checked = checked;
      has_outcome = subst (λ i. Has outcomes (submit_key i)) same_intent h.has_outcome;
    }

pub Change-IsSound : {b : Broker} {c d : Core} → Change b c d → IsSound b c → IsSound b d
Change-IsSound {b} {c} (Change.records key r e) s = record {
  orders = λ id o h.
      IsOwned-kept b c.outcomes _ id o (λ k. Has-put c.outcomes key k r) (s.orders id o h);
  outcomes =
      get-put (λ _ r. IsStored c.orders r) c.outcomes key r (Extends-IsStored b c key r s e)
        (λ k u _ h. s.outcomes k u h);
}
Change-IsSound {b} {c} (Change.emits es n) s = record {
  orders = λ id o h. IsOwned-kept b c.outcomes _ id o (λ k x. x) (s.orders id o h);
  outcomes = s.outcomes;
}
Change-IsSound {b} {c} (Change.advances id p q found checked valid) s = record {
  orders =
      get-put (λ id o. IsOwned b c.outcomes id o) c.orders q.paper_order_id q
        (advanced-IsOwned b c.outcomes id p q (s.orders id p found) checked
          (validate_order_transition-Followed p q valid))
        (λ k u _ h. s.orders k u h);
  outcomes = λ k r h.
      IsStored-kept c.orders _ r (λ k. Has-put c.orders q.paper_order_id k q) (s.outcomes k r h);
}
Change-IsSound {b} {c} (Change.accepts o r e new checked fresh first n) s =
    let placed = put c.outcomes (submit_key o.intent) r in
    record {
      orders =
          get-put (λ id o. IsOwned b placed id o) c.orders o.paper_order_id o
            (record {
              own_id = refl;
              of_key = ap (λ x. x.paper_order_id) new;
              checked = checked;
              has_outcome = (r, get-put_self c.outcomes (submit_key o.intent) r);
            })
            (λ k u _ h.
              IsOwned-kept b c.outcomes _ k u
                (λ key. Has-put c.outcomes (submit_key o.intent) key r) (s.orders k u h));
      outcomes =
          get-put (λ _ r. IsStored (put c.orders o.paper_order_id o) r) c.outcomes
            (submit_key o.intent) r
            (record {
              stored = λ digest o' f.
                  let own : o ≡ o' = find-first_order (b.submit_digest o.intent) o digest o' (
                    subst (λ x. find_outcome x digest ≡ some (OrderCommandResult.of_order o')) first
                      f) in
                  (
                    o,
                    subst (λ x. get (put c.orders o.paper_order_id o) x ≡ some o)
                        (ap (λ x. x.paper_order_id) own) (get-put_self c.orders o.paper_order_id o),
                  );
            })
            (λ k u _ h.
              IsStored-kept c.orders _ u (λ id. Has-put c.orders o.paper_order_id id o)
                (s.outcomes k u h));
    }

pub Changes-IsSound : {b : Broker} {c d : Core} → Changes b c d → IsSound b c → IsSound b d
Changes-IsSound Changes.stay s = s
Changes-IsSound (Changes.then x y) s = Change-IsSound y (Changes-IsSound x s)

initial-IsSound : (b : Broker) (session : Option ℕ) → IsSound b (core (initial session))
unfolding initial get
initial-IsSound b session = record { orders = λ id o h. cc; outcomes = λ key r h. cc }

-- After any calls of a broker that started empty, every order of the store stands under its own id,
-- which is that of its strategy's and client's ids, passes its checks in the 34-digit context, and
-- has a recorded outcome of its submission; and the id of each order that a submission's record
-- holds is the id of an order of the store.
pub Calls-IsSound :
    (b : Broker) (session : Option ℕ) {s : BrokerState}
    → Calls b (initial session) s
    → IsSound b (core s)
Calls-IsSound b session h = Changes-IsSound (Calls-Allowed h) (initial-IsSound b session)
