-- ===== src/Live/Final.antt =====
-- What becomes of an order that is filled or rejected: nothing, whatever the calls.
use mathlib.Core.Path.{subst}
use tx_trader.Common.{
  ℕ, ◌≡◌, ◌⊎◌, inl, inr, refl, sym, ◌∙◌, true, false, Option, none, some, ok, Returns,
  Returns-eq_ok,
}
use tx_trader.Decimals.{Grid, default_prec}
use tx_trader.Decimals.Exact.{OnLot}
use tx_trader.Decimals.Bounds.{LotFits}
use tx_trader.Live.Contracts.{LiveOrderState, LiveOrderIntent, PendingCommandBinding, check_intent}
use tx_trader.Live.Events.{DispatchReceipt, Evidence}
use tx_trader.Live.Order.{LiveOrder, check_binding_state}
use tx_trader.Live.Local.{fresh, is_working}
use tx_trader.Live.Local.Advance.{Advance, advance_local-eq_ok}
use tx_trader.Live.Local.Cancel.{request_cancel-eq_ok}
use tx_trader.Live.Local.Operation.{bind_operation-eq_ok}
use tx_trader.Live.Valid.{IsValid}
use tx_trader.Live.Ledger.{AppliedEventLedger}
use tx_trader.Live.Reduce.Dispatch.{dispatch_bound, reduce_dispatch}
use tx_trader.Live.Reduce.OrderEvent.{reduce_broker_order_event}
use tx_trader.Live.Reduce.FillEvent.{reduce_broker_fill_event}
use tx_trader.Live.Reduce.Safety.{terminal_immutable, overfill_refused}
use tx_trader.Live.History.{Step, Reach, history-IsValid}

-- The order is filled or rejected.
abbrev pub IsOver : LiveOrderState → Type 0
IsOver s = (s ≡ LiveOrderState.filled) ⊎ (s ≡ LiveOrderState.rejected)

over_is_idle : (s : LiveOrderState) → IsOver s → is_working s ≡ true → false ≡ true
over_is_idle s (inl h) w = subst (λ x. is_working x ≡ true) h w
over_is_idle s (inr h) w = subst (λ x. is_working x ≡ true) h w

filled_unbound :
    (p : Option PendingCommandBinding)
    → check_binding_state LiveOrderState.filled p ≡ ok tt
    → p ≡ none
unfolding check_binding_state
filled_unbound none h = refl
filled_unbound (some b) h = cc

rejected_unbound :
    (p : Option PendingCommandBinding)
    → check_binding_state LiveOrderState.rejected p ≡ ok tt
    → p ≡ none
unfolding check_binding_state
rejected_unbound none h = refl
rejected_unbound (some b) h = cc

over_unbound :
    (g : Grid) (k : ℕ) (o : LiveOrder) → IsValid g k o → IsOver o.state → o.pending_command ≡ none
over_unbound g k o v (inl h) =
    filled_unbound o.pending_command
      (subst (λ s. check_binding_state s o.pending_command ≡ ok tt) h v.bound_fits)
over_unbound g k o v (inr h) =
    rejected_unbound o.pending_command
      (subst (λ s. check_binding_state s o.pending_command ≡ ok tt) h v.bound_fits)

reduce_dispatch-unbound :
    (g : Grid) (digest : Evidence → ℕ) (o : LiveOrder) (r : DispatchReceipt)
    (l : AppliedEventLedger)
    → o.pending_command ≡ none
    → Returns (reduce_dispatch g digest o r l) (λ x. x.order ≡ o)
unfolding reduce_dispatch dispatch_bound
reduce_dispatch-unbound g digest o r l h = rw h refl

-- No local move starts from such an order.
over_stays :
    (g : Grid) (o : LiveOrder) (t : ℕ) (p : Option PendingCommandBinding) (to : LiveOrderState)
    (o' : LiveOrder)
    → IsOver o.state
    → Advance g o t p to o'
    → o' ≡ o
over_stays g o t p to o' (inl h) (Advance.validate e _ _) = cc
over_stays g o t p to o' (inr h) (Advance.validate e _ _) = cc
over_stays g o t p to o' (inl h) (Advance.submit e _ _ _) = cc
over_stays g o t p to o' (inr h) (Advance.submit e _ _ _) = cc
over_stays g o t p to o' (inl h) (Advance.give_up e _ _) = cc
over_stays g o t p to o' (inr h) (Advance.give_up e _ _) = cc

module _ (g : Grid) (k : ℕ) (digest : Evidence → ℕ) where
  Step-over : (o o' : LiveOrder) → IsValid g k o → IsOver o.state → Step g k digest o o' → o' ≡ o
  Step-over o o' v c (Step.advanced to t p _ h) =
      over_stays g o t p to o' c (advance_local-eq_ok g o to t p h).1
  Step-over o o' v c (Step.cancel_requested b t _ h) =
      let contrary : false ≡ true = over_is_idle o.state c (request_cancel-eq_ok g o b t h).2 in cc
  Step-over o o' v c (Step.operation_bound b t _ h) =
      let contrary : false ≡ true = over_is_idle o.state c (bind_operation-eq_ok g o b t h).2 in cc
  Step-over o o' v c (Step.dispatched r l res h e) =
      e
      ∙ Returns-eq_ok (λ x. x.order ≡ o) (reduce_dispatch g digest o r l)
          (reduce_dispatch-unbound g digest o r l (over_unbound g k o v c)) h
  Step-over o o' v (inl c) (Step.informed ev l res _ _ h e) =
      e
      ∙ Returns-eq_ok (λ x. x.order ≡ o) (reduce_broker_order_event g digest o ev l)
          (terminal_immutable g digest o ev l (inl c)) h
  Step-over o o' v (inr c) (Step.informed ev l res _ _ h e) =
      e
      ∙ Returns-eq_ok (λ x. x.order ≡ o) (reduce_broker_order_event g digest o ev l)
          (terminal_immutable g digest o ev l (inr (inl c))) h
  Step-over o o' v (inl c) (Step.executed ev l res _ _ _ h e) =
      e
      ∙ (Returns-eq_ok _ (reduce_broker_fill_event g digest o ev l)
          (overfill_refused g digest o ev l (inl c)) h).0
  Step-over o o' v (inr c) (Step.executed ev l res _ _ _ h e) =
      e
      ∙ (Returns-eq_ok _ (reduce_broker_fill_event g digest o ev l)
          (overfill_refused g digest o ev l (inr (inl c))) h).0

  Reach-over : {o p : LiveOrder} → IsValid g k o → IsOver o.state → Reach g k digest o p → p ≡ o
  Reach-over v c Reach.here = refl
  Reach-over {o = o} v c (Reach.next {p = p} {q = q} r s) =
      let same_order : p ≡ o = Reach-over v c r in
      Step-over p q (subst (IsValid g k) (sym same_order) v)
        (subst (λ x. IsOver x.state) (sym same_order) c) s
      ∙ same_order

-- Take an order that calls have led to from a created one, for an intent that its constructor
-- accepts, with a quantity on a lot that fits, and that is filled or rejected. No further calls
-- change it in any field, be they local transitions, requests, dispatch receipts, broker order
-- events or fills. The calls have arguments which their constructors accept and quantities on the
-- lot, and the average price that a fill would give is an admissible positive Decimal.
pub over_is_final :
    (g : Grid) (k : ℕ) (digest : Evidence → ℕ) (i : LiveOrderIntent) {o p : LiveOrder}
    → LotFits g k
    → check_intent g i ≡ ok tt
    → OnLot default_prec k i.quantity
    → Reach g k digest (fresh i) o
    → (o.state ≡ LiveOrderState.filled) ⊎ (o.state ≡ LiveOrderState.rejected)
    → Reach g k digest o p
    → p ≡ o
over_is_final g k digest i f c on before over after =
    Reach-over g k digest (history-IsValid g k digest i f c on before) over after
