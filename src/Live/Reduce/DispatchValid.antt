-- ===== src/Live/Reduce/DispatchValid.antt =====
-- A dispatch receipt is always reduced, and the order that comes out has the invariant.
use tx_trader.Common.{
  ℕ, ◌≤◌, ◌≡◌, refl, Bool, Bool-cases, true, false, Option, none, some, ok, arith, inl, inr,
  Returns, later, or_else, if◌then◌else◌, ◌&&◌,
}
use tx_trader.Decimals.{Grid}
use tx_trader.Decimals.Bounds.{LotFits}
use tx_trader.Live.Contracts.{
  LiveOrderState, LiveCommandKind, PendingCommandBinding, is_terminal, command_kind,
}
use tx_trader.Live.Events.{DispatchReceipt, Evidence, is_succeeded, is_unknown}
use tx_trader.Live.Order.{LiveOrder, check_binding_state, check_progress, needs_acceptance}
use tx_trader.Live.Local.{only, changed, kind_eq}
use tx_trader.Live.Local.Snapshot.{
  snapshot-IsValid, only-IsValid, check_times-later, check_pending-later,
}
use tx_trader.Live.Valid.{IsValid}
use tx_trader.Live.Ledger.{
  Source, AppliedEventLedger, ReductionDisposition, deduplicate, record_event,
}
use tx_trader.Live.Reduce.Dispatch.{
  dispatch_outcome, dispatch_known, dispatch_bound, reduce_dispatch, answers,
}

-- An order that holds a binding is open.
pub bound_open :
    (s : LiveOrderState) (b : PendingCommandBinding)
    → check_binding_state s (some b) ≡ ok tt
    → is_terminal s ≡ false
unfolding check_binding_state
bound_open s b h = ground arith

-- The state after an outcome that is not known: of a NEW command, or of another.
abbrev pub uncertain : Bool → LiveOrderState
uncertain new = if new then LiveOrderState.submission_unknown else LiveOrderState.reconciling

pub uncertain_facts :
    (new : Bool) (b : PendingCommandBinding) (total filled remaining : ℕ)
    → (check_binding_state (uncertain new) (some b) ≡ ok tt)
      × (check_progress (uncertain new) total filled remaining ≡ ok tt)
      × (needs_acceptance (uncertain new) ≡ false)
unfolding check_binding_state check_progress
uncertain_facts true b total filled remaining = (refl, refl, refl)
uncertain_facts false b total filled remaining = (refl, refl, refl)

pub uncertain-IsValid :
    (g : Grid) (k : ℕ) (o : LiveOrder) (new : Bool) (t : ℕ) (b : PendingCommandBinding)
    → IsValid g k o
    → o.updated_at ≤ t
    → o.pending_command ≡ some b
    → IsValid g k (changed o (only (uncertain new) t (some b)))
uncertain-IsValid g k o new t b v h e =
    let (fits, progressed, free) =
      uncertain_facts new b o.total_quantity o.filled_quantity o.remaining_quantity in
    only-IsValid g k o (uncertain new) t (some b) v
      (check_times-later o.state (uncertain new) o.accepted_at o.updated_at t h v.timed
        (λ n. cc free))
      (check_pending-later o.intent o.updated_at t (some b) h (rw e at v.targeted))
      (rw e at v.bound_good) fits progressed
      (λ _. v.rest_open (bound_open o.state b (rw e at v.bound_fits)))

pub le-later : (a b : ℕ) → a ≤ later a b
le-later a b = ground arith

dispatch_outcome-IsValid :
    (g : Grid) (k : ℕ) (o : LiveOrder) (r : DispatchReceipt) (b : PendingCommandBinding)
    (next : AppliedEventLedger)
    → LotFits g k
    → IsValid g k o
    → o.pending_command ≡ some b
    → Returns (dispatch_outcome g o r b next) (λ res. IsValid g k res.order)
unfolding dispatch_outcome
dispatch_outcome-IsValid g k o r b next f v e = elim (Bool-cases (is_succeeded r.state)) [
  | inl done ↦ rw done v
  | inr other ↦
      let new = kind_eq (command_kind b.command) LiveCommandKind.new && is_unknown r.state in
      let t = later o.updated_at (or_else r.completed_at r.attempted_at) in
      let next_valid = uncertain-IsValid g k o new t b v (le-later o.updated_at _) e in
      rw other (
        rw
          (snapshot-IsValid g k o (only (uncertain new) t (some b)) f (le-later o.updated_at _)
            next_valid)
          next_valid)
]

dispatch_known-IsValid :
    (g : Grid) (k : ℕ) (o : LiveOrder) (r : DispatchReceipt) (b : PendingCommandBinding)
    (l : AppliedEventLedger) (fp : ℕ) (d : Option ReductionDisposition)
    → LotFits g k
    → IsValid g k o
    → o.pending_command ≡ some b
    → Returns (dispatch_known g o r b l fp d) (λ res. IsValid g k res.order)
unfolding dispatch_known
dispatch_known-IsValid g k o r b l fp none f v e =
    dispatch_outcome-IsValid g k o r b (record_event l Source.dispatch r.client_command_id fp) f v e
dispatch_known-IsValid g k o r b l fp (some d) f v e = v

dispatch_bound-IsValid :
    (g : Grid) (k : ℕ) (digest : Evidence → ℕ) (o : LiveOrder) (r : DispatchReceipt)
    (l : AppliedEventLedger) (p : Option PendingCommandBinding)
    → LotFits g k
    → IsValid g k o
    → o.pending_command ≡ p
    → Returns (dispatch_bound g digest o r l p) (λ res. IsValid g k res.order)
unfolding dispatch_bound
dispatch_bound-IsValid g k digest o r l none f v e = v
dispatch_bound-IsValid g k digest o r l (some b) f v e = elim (Bool-cases (answers r b)) [
  | inl yes_it_does ↦ rw yes_it_does (
      dispatch_known-IsValid g k o r b l (digest (Evidence.dispatch_evidence r))
        (deduplicate l Source.dispatch r.client_command_id (digest (Evidence.dispatch_evidence r)))
        f v e)
  | inr it_does_not ↦ rw it_does_not v
]

pub reduce_dispatch-IsValid :
    (g : Grid) (k : ℕ) (digest : Evidence → ℕ) (o : LiveOrder) (r : DispatchReceipt)
    (l : AppliedEventLedger)
    → LotFits g k
    → IsValid g k o
    → Returns (reduce_dispatch g digest o r l) (λ res. IsValid g k res.order)
unfolding reduce_dispatch
reduce_dispatch-IsValid g k digest o r l f v =
    dispatch_bound-IsValid g k digest o r l o.pending_command f v refl
