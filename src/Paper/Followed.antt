-- ===== src/Paper/Followed.antt =====
-- What `validate_order_transition` lets through, as facts.
use tx_trader.Common.{
  ℕ, ◌≤◌, ◌<◌, ◌≡◌, refl, Bool, true, false, ◌&&◌, not, Option, ok, raise_if, >>-eq_ok, arith, ltb,
  ◌==◌, same, differ,
}
use tx_trader.Paper.Contracts.{
  OrderSide, OrderType, PaperFault, OrderIntent, PaperOrder, order_side_eq, order_type_eq,
  order_intent_eq,
}
use tx_trader.Paper.Transition.{
  can_transition, is_partial, is_cancelled_status, check_identity, check_fills,
  validate_order_transition,
}

order_side_eq_sound : (a b : OrderSide) → order_side_eq a b ≡ true → a ≡ b
unfolding order_side_eq
order_side_eq_sound a b h = ground arith

order_type_eq_sound : (a b : OrderType) → order_type_eq a b ≡ true → a ≡ b
unfolding order_type_eq
order_type_eq_sound a b h = ground arith

same_sound : (a b : Option ℕ) → same a b ≡ true → a ≡ b
same_sound a b h = ground arith

differ_sound : (a b : Bool) → not (differ a b) ≡ true → a ≡ b
differ_sound a b h = ground arith

==_sound : (a b : ℕ) → (a == b) ≡ true → a ≡ b
==_sound a b h = ground arith

&&-eq_true : (a b : Bool) → (a && b) ≡ true → (a ≡ true) × (b ≡ true)
&&-eq_true true b h = (refl, h)
&&-eq_true false b h = cc

-- Equality of intents, as the dataclass has it, is equality.
order_intent_eq_sound : (a b : OrderIntent) → order_intent_eq a b ≡ true → a ≡ b
unfolding order_intent_eq
order_intent_eq_sound a b h =
    let (h11, e11) = &&-eq_true _ (same a.source_ingest_sequence b.source_ingest_sequence) h in
    let (h10, e10) = &&-eq_true _ (same a.source_session_id b.source_session_id) h11 in
    let (h9, e9) = &&-eq_true _ (a.created_at == b.created_at) h10 in
    let (h8, e8) = &&-eq_true _ (not (differ a.day_trade b.day_trade)) h9 in
    let (h7, e7) = &&-eq_true _ (same a.limit_price b.limit_price) h8 in
    let (h6, e6) = &&-eq_true _ (order_type_eq a.order_type b.order_type) h7 in
    let (h5, e5) = &&-eq_true _ (a.quantity == b.quantity) h6 in
    let (h4, e4) = &&-eq_true _ (order_side_eq a.side b.side) h5 in
    let (h3, e3) = &&-eq_true _ (a.instrument_id == b.instrument_id) h4 in
    let (h2, e2) = &&-eq_true _ (a.account_id == b.account_id) h3 in
    let (h1, e1) = &&-eq_true _ (a.client_order_id == b.client_order_id) h2 in
    let strategy_id_same : a.strategy_id ≡ b.strategy_id =
      ==_sound a.strategy_id b.strategy_id h1 in
    let client_order_id_same : a.client_order_id ≡ b.client_order_id =
      ==_sound a.client_order_id b.client_order_id e1 in
    let account_id_same : a.account_id ≡ b.account_id = ==_sound a.account_id b.account_id e2 in
    let instrument_id_same : a.instrument_id ≡ b.instrument_id =
      ==_sound a.instrument_id b.instrument_id e3 in
    let side_same : a.side ≡ b.side = order_side_eq_sound a.side b.side e4 in
    let quantity_same : a.quantity ≡ b.quantity = ==_sound a.quantity b.quantity e5 in
    let order_type_same : a.order_type ≡ b.order_type =
      order_type_eq_sound a.order_type b.order_type e6 in
    let limit_price_same : a.limit_price ≡ b.limit_price =
      same_sound a.limit_price b.limit_price e7 in
    let day_trade_same : a.day_trade ≡ b.day_trade = differ_sound a.day_trade b.day_trade e8 in
    let created_at_same : a.created_at ≡ b.created_at = ==_sound a.created_at b.created_at e9 in
    let source_session_id_same : a.source_session_id ≡ b.source_session_id =
      same_sound a.source_session_id b.source_session_id e10 in
    let source_ingest_sequence_same : a.source_ingest_sequence ≡ b.source_ingest_sequence =
      same_sound a.source_ingest_sequence b.source_ingest_sequence e11 in
    cc

-- What a validated transition has checked.
pub record Followed (p c : PaperOrder) : Type 0 where
  pub same_run : p.paper_run_id ≡ c.paper_run_id
  pub same_order : p.paper_order_id ≡ c.paper_order_id
  pub same_intent : p.intent ≡ c.intent
  pub same_acceptance : p.accepted_at ≡ c.accepted_at
  pub allowed : can_transition p.status c.status ≡ true
  pub later : p.updated_at ≤ c.updated_at
  pub filled_more : p.filled_quantity ≤ c.filled_quantity
  pub remaining_less : c.remaining_quantity ≤ p.remaining_quantity
  pub partial_fills : is_partial c.status ≡ true → p.filled_quantity < c.filled_quantity
  pub cancel_keeps : is_cancelled_status c.status ≡ true → c.filled_quantity ≡ p.filled_quantity

passes : (b : Bool) (f : PaperFault) → raise_if (not b) f ≡ ok tt → b ≡ true
passes true f h = refl
passes false f h = cc

pub validate_order_transition-Followed :
    (p c : PaperOrder) → validate_order_transition p c ≡ ok tt → Followed p c
unfolding validate_order_transition check_identity check_fills
validate_order_transition-Followed p c h =
    let (identity, h1) = >>-eq_ok (check_identity p c) _ h in
    let (may, h2) =
      >>-eq_ok (raise_if (not (can_transition p.status c.status)) PaperFault.not_allowed) _ h1 in
    let (time, fills) =
      >>-eq_ok (raise_if (ltb c.updated_at p.updated_at) PaperFault.time_backwards) _ h2 in
    let (run, i1) =
      >>-eq_ok (raise_if (not (p.paper_run_id == c.paper_run_id)) PaperFault.run_changed) _
        identity in
    let (order, i2) =
      >>-eq_ok (raise_if (not (p.paper_order_id == c.paper_order_id)) PaperFault.order_changed) _
        i1 in
    let (intent, acceptance) =
      >>-eq_ok (raise_if (not (order_intent_eq p.intent c.intent)) PaperFault.intent_changed) _
        i2 in
    record {
      same_run = ==_sound _ _ (passes _ _ run);
      same_order = ==_sound _ _ (passes _ _ order);
      same_intent = order_intent_eq_sound _ _ (passes _ _ intent);
      same_acceptance = same_sound _ _ (passes _ _ acceptance);
      allowed = passes _ _ may;
      later = ground (arith, time);
      filled_more = ground (arith, fills);
      remaining_less = ground (arith, fills);
      partial_fills = λ e. ground (arith, fills, e);
      cancel_keeps = λ e. ground (arith, fills, e);
    }
