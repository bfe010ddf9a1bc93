-- ===== src/Live/History.antt =====
-- The life of a live order: any sequence of local transitions and reductions.
use tx_trader.Common.{ℕ, ◌≡◌, Option, ok, Returns-eq_ok}
use tx_trader.Decimals.{Grid, default_prec}
use tx_trader.Decimals.Exact.{OnLot}
use tx_trader.Decimals.Bounds.{LotFits}
use tx_trader.Live.Contracts.{
  LiveOrderState, LiveOrderIntent, PendingCommandBinding, check_command, check_intent,
  check_positive,
}
use tx_trader.Live.Events.{
  DispatchReceipt, NormalizedBrokerOrderEvent, NormalizedBrokerFillEvent, Evidence,
  check_order_event, check_fill_event,
}
use tx_trader.Live.Order.{LiveOrder}
use tx_trader.Live.Local.{fresh, advance_local, request_cancel, bind_operation}
use tx_trader.Live.Local.Advance.{create_live_order-IsValid, advance_local-IsValid}
use tx_trader.Live.Local.Cancel.{request_cancel-IsValid}
use tx_trader.Live.Local.Operation.{bind_operation-IsValid}
use tx_trader.Live.Valid.{IsValid, check_bound}
use tx_trader.Live.Ledger.{AppliedEventLedger, ReductionResult}
use tx_trader.Live.Reduce.Dispatch.{reduce_dispatch}
use tx_trader.Live.Reduce.DispatchValid.{reduce_dispatch-IsValid}
use tx_trader.Live.Reduce.OrderEvent.{reduce_broker_order_event}
use tx_trader.Live.Reduce.OrderEventValid.{reduce_broker_order_event-IsValid}
use tx_trader.Live.Reduce.WorkingChangeFits.{AllOn}
use tx_trader.Live.Reduce.FillEvent.{average_after, reduce_broker_fill_event}
use tx_trader.Live.Reduce.FillEventValid.{reduce_broker_fill_event-FillOutcome}

-- One call that returns, on well-formed arguments whose quantities lie on the lot.
pub data Step (g : Grid) (k : ℕ) (digest : Evidence → ℕ) (o : LiveOrder) (o' : LiveOrder)
    : Type 0 where
  advanced :
      (to : LiveOrderState) (t : ℕ) (p : Option PendingCommandBinding)
      → check_bound g p ≡ ok tt
      → advance_local g o to t p ≡ ok o'
      → Step g k digest o o'
  cancel_requested :
      (b : PendingCommandBinding) (t : ℕ)
      → check_command g b.command ≡ ok tt
      → request_cancel g o b t ≡ ok o'
      → Step g k digest o o'
  operation_bound :
      (b : PendingCommandBinding) (t : ℕ)
      → check_command g b.command ≡ ok tt
      → bind_operation g o b t ≡ ok o'
      → Step g k digest o o'
  dispatched :
      (r : DispatchReceipt) (l : AppliedEventLedger) (res : ReductionResult)
      → reduce_dispatch g digest o r l ≡ ok res
      → o' ≡ res.order
      → Step g k digest o o'
  informed :
      (e : NormalizedBrokerOrderEvent) (l : AppliedEventLedger) (res : ReductionResult)
      → check_order_event g e ≡ ok tt
      → AllOn k e.decreased_quantity
      → reduce_broker_order_event g digest o e l ≡ ok res
      → o' ≡ res.order
      → Step g k digest o o'
  executed :
      (e : NormalizedBrokerFillEvent) (l : AppliedEventLedger) (res : ReductionResult)
      → check_fill_event g e ≡ ok tt
      → OnLot default_prec k e.quantity
      → check_positive g (average_after g o e) ≡ ok tt
      → reduce_broker_fill_event g digest o e l ≡ ok res
      → o' ≡ res.order
      → Step g k digest o o'

pub data Reach (g : Grid) (k : ℕ) (digest : Evidence → ℕ) (o : LiveOrder) : LiveOrder → Type 0 where
  here : Reach g k digest o o
  next : {p q : LiveOrder} → Reach g k digest o p → Step g k digest p q → Reach g k digest o q

module _ (g : Grid) (k : ℕ) (digest : Evidence → ℕ) (f : LotFits g k) where
  Step-IsValid : (o o' : LiveOrder) → IsValid g k o → Step g k digest o o' → IsValid g k o'
  Step-IsValid o o' v (Step.advanced to t p c h) = advance_local-IsValid g k o to t p f v c h
  Step-IsValid o o' v (Step.cancel_requested b t c h) = request_cancel-IsValid g k o b t f v c h
  Step-IsValid o o' v (Step.operation_bound b t c h) = bind_operation-IsValid g k o b t f v c h
  Step-IsValid o o' v (Step.dispatched r l res h e) = rw e (
      Returns-eq_ok (λ x. IsValid g k x.order) (reduce_dispatch g digest o r l)
        (reduce_dispatch-IsValid g k digest o r l f v) h)
  Step-IsValid o o' v (Step.informed ev l res c on h e) = rw e (
      Returns-eq_ok (λ x. IsValid g k x.order) (reduce_broker_order_event g digest o ev l)
        (reduce_broker_order_event-IsValid g k digest o ev l f v c on) h)
  Step-IsValid o o' v (Step.executed ev l res c on a h e) =
      rw e
        (Returns-eq_ok _ (reduce_broker_fill_event g digest o ev l)
          (reduce_broker_fill_event-FillOutcome g k digest o ev l f v c on a) h).valid

  Reach-IsValid : {o o' : LiveOrder} → IsValid g k o → Reach g k digest o o' → IsValid g k o'
  Reach-IsValid v Reach.here = v
  Reach-IsValid v (Reach.next {p = p} {q = q} r s) = Step-IsValid p q (Reach-IsValid v r) s

-- For an intent that its constructor accepts, with a quantity on a lot that fits, every order that
-- any sequence of calls leads to is valid. The calls have arguments which their constructors accept
-- and quantities on the lot, and the average price after a fill is an admissible positive Decimal.
pub history-IsValid :
    (g : Grid) (k : ℕ) (digest : Evidence → ℕ) (i : LiveOrderIntent) {o : LiveOrder}
    → LotFits g k
    → check_intent g i ≡ ok tt
    → OnLot default_prec k i.quantity
    → Reach g k digest (fresh i) o
    → IsValid g k o
history-IsValid g k digest i f c on r =
    Reach-IsValid g k digest f (create_live_order-IsValid g k i f c on).1 r
