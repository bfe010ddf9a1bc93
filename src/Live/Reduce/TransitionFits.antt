-- ===== src/Live/Reduce/TransitionFits.antt =====
-- Every transition that a broker event brings about fits the order's other fields.
use tx_trader.Common.{
  IfSome, ℕ, ◌-◌, ◌≤◌, ◌<◌, ◌≡◌, refl, false, Option, none, some, ok, arith, ltb,
}
use tx_trader.Decimals.{Grid, default_prec}
use tx_trader.Decimals.Exact.{OnLot}
use tx_trader.Live.Contracts.{
  LiveOrderState, LiveCommandKind, PendingCommandBinding, is_terminal, command_kind, check_optional,
  check_price,
}
use tx_trader.Live.Order.{LiveOrder, check_pending, check_binding_state, check_progress}
use tx_trader.Live.Local.{replaced, kind_eq}
use tx_trader.Live.Valid.{IsValid, check_bound}
use tx_trader.Live.Reduce.Transition.{Transition, open_state, kept, unknown_state, outcome_unknown}
use tx_trader.Live.Reduce.DispatchValid.{uncertain, uncertain_facts}

-- The parts of the next order that a transition decides.
pub record Fits (g : Grid) (k : ℕ) (o : LiveOrder) (t : Transition) : Type 0 where
  pub total_on : OnLot default_prec k t.total_quantity
  pub total_pos : 0 < t.total_quantity
  pub no_less : o.filled_quantity ≤ t.total_quantity
  pub no_more : t.total_quantity ≤ o.total_quantity
  pub limit_good : check_optional g (replaced t.limit_price o.working_limit_price) ≡ ok tt
  pub priced :
      check_price o.intent.order_type (replaced t.limit_price o.working_limit_price) ≡ ok tt
  pub targeted : check_pending o.intent o.updated_at t.pending ≡ ok tt
  pub bound_good : check_bound g t.pending ≡ ok tt
  pub bound_fits : check_binding_state t.state t.pending ≡ ok tt
  pub progressed :
      check_progress t.state t.total_quantity o.filled_quantity
        (t.total_quantity - o.filled_quantity)
      ≡ ok tt
  pub rest_open : is_terminal t.state ≡ false → 0 < t.total_quantity - o.filled_quantity

replaced_self : (p : Option ℕ) → replaced p p ≡ p
replaced_self none = refl
replaced_self (some v) = refl

rest_eq :
    (g : Grid) (k : ℕ) (o : LiveOrder)
    → IsValid g k o
    → o.remaining_quantity ≡ o.total_quantity - o.filled_quantity
rest_eq g k o v = omega (arith, v.parts)

-- A transition that keeps the total and the price fits if its state and its binding do.
pub kept-Fits :
    (g : Grid) (k : ℕ) (o : LiveOrder) (s : LiveOrderState) (p : Option PendingCommandBinding)
    → IsValid g k o
    → check_pending o.intent o.updated_at p ≡ ok tt
    → check_bound g p ≡ ok tt
    → check_binding_state s p ≡ ok tt
    → check_progress s o.total_quantity o.filled_quantity o.remaining_quantity ≡ ok tt
    → (is_terminal s ≡ false → 0 < o.remaining_quantity)
    → Fits g k o (kept o s p)
kept-Fits g k o s p v targeted good fits progressed rest = record {
  total_on = v.total_on;
  total_pos = v.total_pos;
  no_less = omega (arith, v.parts);
  no_more = omega arith;
  limit_good = rw (replaced_self o.working_limit_price) v.limit_good;
  priced = rw (replaced_self o.working_limit_price) v.priced;
  targeted = targeted;
  bound_good = good;
  bound_fits = fits;
  progressed = rw (rest_eq g k o v) at progressed;
  rest_open = λ h. rw (rest_eq g k o v) at (rest h);
}

-- A transition that leaves no binding.
pub unbound-Fits :
    (g : Grid) (k : ℕ) (o : LiveOrder) (s : LiveOrderState)
    → IsValid g k o
    → check_binding_state s none ≡ ok tt
    → check_progress s o.total_quantity o.filled_quantity o.remaining_quantity ≡ ok tt
    → (is_terminal s ≡ false → 0 < o.remaining_quantity)
    → Fits g k o (kept o s none)
unfolding check_pending
unbound-Fits g k o s v fits progressed rest =
    kept-Fits g k o s none v refl refl fits progressed rest

-- The order stays as it is.
pub same-Fits :
    (g : Grid) (k : ℕ) (o : LiveOrder)
    → IsValid g k o
    → Fits g k o (kept o o.state o.pending_command)
same-Fits g k o v =
    kept-Fits g k o o.state o.pending_command v v.targeted v.bound_good v.bound_fits v.progressed
      v.rest_open

-- An open order in the state that its fill calls for.
pub open_facts :
    (p : Option PendingCommandBinding) (total filled remaining : ℕ)
    → filled < total
    → (check_binding_state (open_state filled) p ≡ ok tt)
      × (check_progress (open_state filled) total filled remaining ≡ ok tt)
unfolding check_binding_state check_progress
open_facts p total filled remaining h = ground arith

pub open-Fits :
    (g : Grid) (k : ℕ) (o : LiveOrder)
    → IsValid g k o
    → 0 < o.remaining_quantity
    → Fits g k o (kept o (open_state o.filled_quantity) none)
open-Fits g k o v rest =
    let (fits, progressed) =
      open_facts none o.total_quantity o.filled_quantity o.remaining_quantity
        (omega (arith, v.parts)) in
    unbound-Fits g k o (open_state o.filled_quantity) v fits progressed (λ _. rest)

pub rejected_facts :
    (total filled remaining : ℕ)
    → ltb 0 filled ≡ false
    → (check_binding_state LiveOrderState.rejected none ≡ ok tt)
      × (check_progress LiveOrderState.rejected total filled remaining ≡ ok tt)
unfolding check_binding_state check_progress
rejected_facts total filled remaining h = ground arith

cancelled_facts :
    (total filled remaining : ℕ)
    → 0 < remaining
    → (check_binding_state LiveOrderState.cancelled none ≡ ok tt)
      × (check_progress LiveOrderState.cancelled total filled remaining ≡ ok tt)
unfolding check_binding_state check_progress
cancelled_facts total filled remaining h = ground arith

pub cancelled-Fits :
    (g : Grid) (k : ℕ) (o : LiveOrder)
    → IsValid g k o
    → 0 < o.remaining_quantity
    → Fits g k o (kept o LiveOrderState.cancelled none)
cancelled-Fits g k o v rest =
    let (fits, progressed) =
      cancelled_facts o.total_quantity o.filled_quantity o.remaining_quantity rest in
    unbound-Fits g k o LiveOrderState.cancelled v fits progressed (λ _. rest)

unknown_state-eq :
    (kind : LiveCommandKind) → unknown_state kind ≡ uncertain (kind_eq kind LiveCommandKind.new)
unknown_state-eq kind = ground arith

pub outcome_unknown-Fits :
    (g : Grid) (k : ℕ) (o : LiveOrder) (p : Option PendingCommandBinding)
    → IsValid g k o
    → 0 < o.remaining_quantity
    → o.pending_command ≡ p
    → IfSome (Fits g k o) (outcome_unknown o p)
unfolding outcome_unknown
outcome_unknown-Fits g k o none v rest e = tt
outcome_unknown-Fits g k o (some b) v rest e =
    let kind = command_kind b.command in
    let (fits, progressed, _) =
      uncertain_facts (kind_eq kind LiveCommandKind.new) b o.total_quantity o.filled_quantity
        o.remaining_quantity in
    kept-Fits g k o (unknown_state kind) (some b) v (rw e at v.targeted) (rw e at v.bound_good)
      (rw (unknown_state-eq kind) fits) (rw (unknown_state-eq kind) progressed) (λ _. rest)
