-- ===== src/Paper/Broker/Sides.antt =====
-- What fills take from a side of the book, and what they leave.
use tx_trader.Common.{
  ℕ, ◌+◌, ◌-◌, ◌^◌, ◌≤◌, ◌<◌, ◌≡◌, refl, ◌∙◌, some, List, [], ◌∷◌, ◌++◌, raise_if, Ensures,
  Ensures->>=, ltb, or_else, if◌then◌else◌, eq_nat, eq_pair, eq_triple, inl, inr, Option-cases,
  Bool-cases, arith,
}
use tx_trader.Decimals.{sub}
use tx_trader.Decimals.Exact.{OnLot, sub-OnLot}
use tx_trader.Paper.Contracts.{OrderSide, PaperOrder, PaperFault, check_paper_order, order_side_eq}
use tx_trader.Paper.Transition.{validate_order_transition}
use tx_trader.Paper.Position.{PaperFill}
use tx_trader.Paper.Matching.{MatchSkipReason}
use tx_trader.Paper.Policies.{PolicyFault}
use tx_trader.Paper.Broker.State.{BrokerFault, within}
use tx_trader.Paper.Broker.Commands.{matching_prec}
use tx_trader.Paper.Broker.Batch.{
  Capacities, Batch, capacity_of, with_capacity, policy_skip_reason, weighted_average, skip_policy,
}
use tx_trader.Paper.Broker.Fills.{filled_order, update_order}
use tx_trader.Paper.Broker.Matches.{fill_quantity}

-- What fills have taken from a side, which is that of their orders.
unfoldable pub taken : OrderSide → List PaperFill → ℕ
taken side [] = 0
taken side (f ∷ fs) =
    let rest = taken side fs in if order_side_eq f.side side then f.quantity + rest else rest

-- What is left on a side.
abbrev pub left_on : OrderSide → Capacities → ℕ
left_on side c = or_else (capacity_of side c) 0

-- What is left fits in the context's digits.
abbrev pub FitsDigits : Capacities → Type 0
FitsDigits c = (side : OrderSide) → left_on side c < 10 ^ 34

-- What is taken and what is left add up to the same on both sides.
pub record Conserves (t u : Batch) : Type 0 where
  pub total :
      (side : OrderSide)
      → taken side u.result_fills + left_on side u.capacities
        ≡ taken side t.result_fills + left_on side t.capacities
  pub less : (side : OrderSide) → left_on side u.capacities ≤ left_on side t.capacities

pub Conserves-refl : (t : Batch) → Conserves t t
Conserves-refl t = record { total = λ side. refl; less = λ side. omega arith }

pub Conserves-trans : {t u v : Batch} → Conserves t u → Conserves u v → Conserves t v
Conserves-trans h h' = record {
  total = λ side. h'.total side ∙ h.total side;
  less = λ side. omega (arith, h.less side, h'.less side);
}

-- A skipped order takes nothing.
pub Conserves-skip :
    (t : Batch) (reasons : List MatchSkipReason) → Conserves t (record t { reasons = reasons })
Conserves-skip t reasons = record { total = λ side. refl; less = λ side. omega arith }

pub skip_policy-Conserves : (t : Batch) (e : PolicyFault) → Ensures (skip_policy t e) (Conserves t)
unfolding skip_policy
skip_policy-Conserves t e = elim (Option-cases (policy_skip_reason e)) [
  | inl h ↦ rw (h, Ensures) tt
  | inr (r, h) ↦ rw (h, Ensures) (Conserves-skip t _)
]

pub taken-++ :
    (side : OrderSide) (fs : List PaperFill) (f : PaperFill)
    → taken side (fs ++ (f ∷ []))
      ≡ taken side fs + (if order_side_eq f.side side then f.quantity else 0)
unfolding taken
taken-++ side [] f = elim (Bool-cases (order_side_eq f.side side)) [
  | inl h ↦ rw h (omega arith)
  | inr h ↦ rw h refl
]
taken-++ side (x ∷ fs) f = elim (Bool-cases (order_side_eq x.side side)) [
  | inl h ↦ rw h (omega (arith, taken-++ side fs f))
  | inr h ↦ rw h (omega (arith, taken-++ side fs f))
]

sub_exact : (a q : ℕ) → a < 10 ^ 34 → q ≤ a → sub matching_prec a q ≡ a - q
sub_exact a q h l = sub-OnLot 34 0 a q (on_unit a h) (on_unit q (omega (arith, h, l)))
  where
    on_unit : (v : ℕ) → v < 10 ^ 34 → OnLot 34 0 v
    on_unit v h = record { lots = v; is_whole = omega arith; few = h }

pub fill_quantity-≤ : (o : PaperOrder) (available : ℕ) → fill_quantity o available ≤ available
fill_quantity-≤ o available = ground arith

-- The capacities after a fill of this side.
pub after_fill :
    (own side : OrderSide) (c : Capacities) (available quantity : ℕ)
    → capacity_of own c ≡ some available
    → available < 10 ^ 34
    → quantity ≤ available
    → ((if order_side_eq own side then quantity else 0)
          + left_on side (with_capacity own (sub matching_prec available quantity) c)
        ≡ left_on side c)
      × (left_on side (with_capacity own (sub matching_prec available quantity) c) ≤ left_on side c)
unfolding order_side_eq
after_fill OrderSide.buy OrderSide.buy c available quantity h fits l =
    rw (sub_exact available quantity fits l, h) (omega (arith, l))
after_fill OrderSide.buy OrderSide.sell c available quantity h fits l = omega arith
after_fill OrderSide.sell OrderSide.buy c available quantity h fits l = omega arith
after_fill OrderSide.sell OrderSide.sell c available quantity h fits l =
    rw (sub_exact available quantity fits l, h) (omega (arith, l))

pub update_order-intent :
    (o : PaperOrder) (done quantity price at : ℕ)
    → Ensures (update_order o done quantity price at) (λ q. q.intent ≡ o.intent)
unfolding update_order
update_order-intent o done quantity price at =
    let P = λ (q : PaperOrder). q.intent ≡ o.intent in
    Ensures->>= P (weighted_average o.filled_quantity o.average_fill_price quantity price) _
      λ average _.
        Ensures->>= P
          (raise_if (ltb o.intent.quantity done)
            (BrokerFault.of_order_check PaperFault.not_positive))
          _
          λ _ _.
            Ensures->>= P
              (within BrokerFault.of_order_check
                (check_paper_order matching_prec (filled_order o done average at)))
              _
              λ _ _.
                Ensures->>= P
                  (within BrokerFault.of_order_check
                    (validate_order_transition o (filled_order o done average at)))
                  _ (λ _ _. refl)
