-- ===== src/Live/Reduce/Transport.antt =====
-- A transport receipt is no acceptance: what `reduce_dispatch` leaves alone.
use tx_trader.Common.{
  ℕ, ◌≡◌, ◌⊎◌, inl, inr, refl, Bool, Bool-cases, true, false, ◌&&◌, Option, none, some, Outcome, ok,
  ltb, Returns, Ensures, Ensures->>=, Returns-Ensures, later, or_else, >>-eq_ok, raise_if, sym,
}
use tx_trader.Decimals.{Grid}
use tx_trader.Live.Contracts.{
  LiveOrderState, Fault, PendingCommandBinding, check_price, LiveCommandKind, command_kind,
}
use tx_trader.Live.Events.{is_succeeded, is_unknown, DispatchReceipt, Evidence}
use tx_trader.Live.Order.{
  LiveOrder, post_init, check_amounts, check_quantities, check_times, check_pending,
  check_binding_state, check_progress,
}
use tx_trader.Live.Local.{Changes, changed, snapshot, only, kind_eq}
use tx_trader.Live.Reduce.DispatchValid.{uncertain, reduce_dispatch-IsValid}
use mathlib.Core.Path.{subst}
use tx_trader.Decimals.Bounds.{LotFits}
use tx_trader.Live.Valid.{IsValid}
use tx_trader.Live.Ledger.{
  Source, AppliedEventLedger, ReductionDisposition, deduplicate, record_event,
}
use tx_trader.Live.Reduce.Dispatch.{
  answers, dispatch_outcome, dispatch_known, dispatch_bound, reduce_dispatch,
}

-- What a dispatch receipt leaves alone: acceptance, quantities and prices.
abbrev pub IsTransportOnly : LiveOrder → LiveOrder → Type 0
IsTransportOnly o o' =
    (o'.accepted_at ≡ o.accepted_at)
    × (o'.total_quantity ≡ o.total_quantity)
    × (o'.filled_quantity ≡ o.filled_quantity)
    × (o'.remaining_quantity ≡ o.remaining_quantity)
    × (o'.average_fill_price ≡ o.average_fill_price)
    × (o'.working_limit_price ≡ o.working_limit_price)
    × (o'.pending_command ≡ o.pending_command)
    × ((o'.state ≡ o.state)
        ⊎ (o'.state ≡ LiveOrderState.submission_unknown)
        ⊎ (o'.state ≡ LiveOrderState.reconciling))

ok_injective : {a b : LiveOrder} → ◌≡◌ {A = Outcome Fault LiveOrder} (ok a) (ok b) → a ≡ b
ok_injective e = cc

-- The order that passes its checks is returned as it is.
post_init-eq_ok : (g : Grid) (o : LiveOrder) {o' : LiveOrder} → post_init g o ≡ ok o' → o ≡ o'
unfolding post_init
post_init-eq_ok g o h =
    let (a, h1) = >>-eq_ok (check_amounts g o) _ h in
    let (b, h2) = >>-eq_ok (check_price o.intent.order_type o.working_limit_price) _ h1 in
    let (c, h3) = >>-eq_ok (check_quantities o) _ h2 in
    let (d, h4) = >>-eq_ok (check_times o.state o.accepted_at o.updated_at) _ h3 in
    let (e, h5) = >>-eq_ok (check_pending o.intent o.updated_at o.pending_command) _ h4 in
    let (f, h6) = >>-eq_ok (check_binding_state o.state o.pending_command) _ h5 in
    let (p, h7) =
      >>-eq_ok (check_progress o.state o.total_quantity o.filled_quantity o.remaining_quantity) _
        h6 in
    ok_injective h7

-- A snapshot is built from the changes, if at all.
snapshot-eq_ok :
    (g : Grid) (o : LiveOrder) (c : Changes) {o' : LiveOrder}
    → snapshot g o c ≡ ok o'
    → changed o c ≡ o'
unfolding snapshot
snapshot-eq_ok g o c h =
    let (a, built) = >>-eq_ok (raise_if (ltb c.updated_at o.updated_at) Fault.time_backwards) _ h in
    post_init-eq_ok g (changed o c) built

changed-IsTransportOnly :
    (o : LiveOrder) (new : Bool) (t : ℕ) (b : PendingCommandBinding)
    → o.pending_command ≡ some b
    → IsTransportOnly o (changed o (only (uncertain new) t (some b)))
unfolding changed
changed-IsTransportOnly o true t b e = (refl, refl, refl, refl, refl, refl, sym e, inr (inl refl))
changed-IsTransportOnly o false t b e = (refl, refl, refl, refl, refl, refl, sym e, inr (inr refl))

self-IsTransportOnly : (o : LiveOrder) → IsTransportOnly o o
self-IsTransportOnly o = (refl, refl, refl, refl, refl, refl, refl, inl refl)

module _ (g : Grid) (o : LiveOrder) (r : DispatchReceipt) where
  dispatch_outcome_transport :
      (b : PendingCommandBinding) (next : AppliedEventLedger)
      → o.pending_command ≡ some b
      → Ensures (dispatch_outcome g o r b next) (λ res. IsTransportOnly o res.order)
  unfolding dispatch_outcome
  dispatch_outcome_transport b next p = elim (Bool-cases (is_succeeded r.state)) [
    | inl done ↦ rw done (self-IsTransportOnly o)
    | inr other ↦
        let new = kind_eq (command_kind b.command) LiveCommandKind.new && is_unknown r.state in
        let t = later o.updated_at (or_else r.completed_at r.attempted_at) in
        rw other (
          Ensures->>= (λ res. IsTransportOnly o res.order)
            (snapshot g o (only (uncertain new) t (some b))) _
            λ o' e.
              subst (IsTransportOnly o) (snapshot-eq_ok g o (only (uncertain new) t (some b)) e)
                (changed-IsTransportOnly o new t b p))
  ]

  dispatch_known_transport :
      (b : PendingCommandBinding) (l : AppliedEventLedger) (fp : ℕ)
      (d : Option ReductionDisposition)
      → o.pending_command ≡ some b
      → Ensures (dispatch_known g o r b l fp d) (λ res. IsTransportOnly o res.order)
  unfolding dispatch_known
  dispatch_known_transport b l fp (some d) p = self-IsTransportOnly o
  dispatch_known_transport b l fp none p =
      dispatch_outcome_transport b (record_event l Source.dispatch r.client_command_id fp) p

  dispatch_bound_transport :
      (digest : Evidence → ℕ) (l : AppliedEventLedger) (p : Option PendingCommandBinding)
      → o.pending_command ≡ p
      → Ensures (dispatch_bound g digest o r l p) (λ res. IsTransportOnly o res.order)
  unfolding dispatch_bound
  dispatch_bound_transport digest l none e = self-IsTransportOnly o
  dispatch_bound_transport digest l (some b) e = elim (Bool-cases (answers r b)) [
    | inl hit ↦
        let fp = digest (Evidence.dispatch_evidence r) in
        rw hit
          (dispatch_known_transport b l fp (deduplicate l Source.dispatch r.client_command_id fp) e)
    | inr miss ↦ rw miss (self-IsTransportOnly o)
  ]

-- A dispatch receipt is always reduced, for a valid order on a lot that fits. The order that comes
-- out is valid, and it is the old one but for its state, version and time: the acceptance, the
-- quantities, the prices and the binding stay, and the state stays or becomes SUBMISSION_UNKNOWN
-- or RECONCILING.
pub reduce_dispatch-IsTransportOnly :
    (g : Grid) (k : ℕ) (digest : Evidence → ℕ) (o : LiveOrder) (r : DispatchReceipt)
    (l : AppliedEventLedger)
    → LotFits g k
    → IsValid g k o
    → Returns
        (reduce_dispatch g digest o r l)
        (λ res. IsValid g k res.order × IsTransportOnly o res.order)
unfolding reduce_dispatch
reduce_dispatch-IsTransportOnly g k digest o r l f v =
    Returns-Ensures (λ res. IsValid g k res.order) (λ res. IsTransportOnly o res.order)
      (reduce_dispatch g digest o r l) (reduce_dispatch-IsValid g k digest o r l f v)
      (dispatch_bound_transport g o r digest l o.pending_command refl)
