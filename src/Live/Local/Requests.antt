-- ===== src/Live/Local/Requests.antt =====
-- Which requests of a cancellation, an amendment or a decrease go through, and what they give.
use tx_trader.Common.{
  ℕ, ◌≤◌, ◌≡◌, ◌⊎◌, ◌↔◌, refl, sym, ap, ◌∙◌, true, false, none, some, Outcome, ok, not, raise_if,
  raise_if-eq_ok, >>-eq_ok, ltb, ==_iff, arith,
}
use tx_trader.Decimals.{Grid}
use tx_trader.Decimals.Bounds.{LotFits}
use tx_trader.Live.Contracts.{
  LiveOrderState, LiveCommand, LiveCommandKind, Fault, PendingCommandBinding, bound_at,
  command_kind, check_command,
}
use tx_trader.Live.Order.{LiveOrder}
use tx_trader.Live.Local.{
  only, changed, is_for, kind_eq, require_binding, is_working, request_cancel, is_operation,
  misses_total, bind_operation,
}
use tx_trader.Live.Valid.{IsValid}
use tx_trader.Live.Local.Snapshot.{snapshot-IsValid}
use tx_trader.Live.Local.Cancel.{request_cancel-eq_ok, request_cancel_succeeds}
use tx_trader.Live.Local.Operation.{bind_operation-eq_ok, bound-IsValid}

-- A cancellation of this order, asked for by this time.
pub data Cancels (o : LiveOrder) (t : ℕ) : LiveCommand → Type 0 where
  cancels :
      {c oid at : ℕ}
      → oid ≡ o.intent.client_order_id
      → at ≤ t
      → Cancels o t (LiveCommand.cancel_order c oid at)

-- An amendment of this order, or a decrease from its total, asked for by this time.
pub data Operates (o : LiveOrder) (t : ℕ) : LiveCommand → Type 0 where
  amends :
      {c oid price at : ℕ}
      → oid ≡ o.intent.client_order_id
      → at ≤ t
      → Operates o t (LiveCommand.amend_order c oid price at)
  decreases :
      {c oid expected total at : ℕ}
      → oid ≡ o.intent.client_order_id
      → expected ≡ o.total_quantity
      → at ≤ t
      → Operates o t (LiveCommand.decrease_order c oid expected total at)

-- The order is accepted or partially filled, and waits for no command.
pub record IsFree (o : LiveOrder) (t : ℕ) : Type 0 where
  pub later : o.updated_at ≤ t
  pub working : (o.state ≡ LiveOrderState.accepted) ⊎ (o.state ≡ LiveOrderState.partially_filled)
  pub unbound : o.pending_command ≡ none

working_cases :
    (s : LiveOrderState)
    → (is_working s ≡ true)
      ↔ ((s ≡ LiveOrderState.accepted) ⊎ (s ≡ LiveOrderState.partially_filled))
working_cases s = ground arith

kind_eq_sound : (a b : LiveCommandKind) → kind_eq a b ≡ true → a ≡ b
kind_eq_sound a b h = ground arith

require_binding-eq_ok :
    (o : LiveOrder) (b : PendingCommandBinding) (kind : LiveCommandKind) (t : ℕ)
    → require_binding o (some b) kind t ≡ ok tt
    → (command_kind b.command ≡ kind) × (bound_at b.command ≤ t) × (is_for o b.command ≡ true)
unfolding require_binding
require_binding-eq_ok o b kind t h =
    let (same_kind, h1) =
      >>-eq_ok (raise_if (not (kind_eq (command_kind b.command) kind)) Fault.wrong_kind) _ h in
    let (early, h2) = >>-eq_ok (raise_if (ltb t (bound_at b.command)) Fault.bound_in_future) _ h1 in
    (
      kind_eq_sound (command_kind b.command) kind (ground (arith, raise_if-eq_ok _ _ same_kind)),
      ground (arith, raise_if-eq_ok _ _ early),
      ground (arith, raise_if-eq_ok _ _ h2),
    )

cancel_cases :
    (o : LiveOrder) (t : ℕ) (c : LiveCommand)
    → command_kind c ≡ LiveCommandKind.cancel
    → bound_at c ≤ t
    → is_for o c ≡ true
    → Cancels o t c
cancel_cases o t (LiveCommand.new_order c i at) k h f = cc
cancel_cases o t (LiveCommand.cancel_order c oid at) k h f =
    Cancels.cancels ((==_iff oid o.intent.client_order_id).0 f) h
cancel_cases o t (LiveCommand.amend_order c oid p at) k h f = cc
cancel_cases o t (LiveCommand.decrease_order c oid x n at) k h f = cc

operation_cases :
    (o : LiveOrder) (t : ℕ) (c : LiveCommand)
    → is_operation (command_kind c) ≡ true
    → bound_at c ≤ t
    → is_for o c ≡ true
    → misses_total o c ≡ false
    → Operates o t c
operation_cases o t (LiveCommand.new_order c i at) k h f m = cc
operation_cases o t (LiveCommand.cancel_order c oid at) k h f m = cc
operation_cases o t (LiveCommand.amend_order c oid p at) k h f m =
    Operates.amends ((==_iff oid o.intent.client_order_id).0 f) h
operation_cases o t (LiveCommand.decrease_order c oid x n at) k h f m =
    Operates.decreases ((==_iff oid o.intent.client_order_id).0 f) (ground (arith, m)) h

-- The code's tests of a command that operates on the order.
Operates-tests :
    (o : LiveOrder) (t fingerprint : ℕ) (c : LiveCommand)
    → Operates o t c
    → (require_binding o
          (some (record { command = c; payload_fingerprint = fingerprint }))
          (command_kind c)
          t
        ≡ ok tt)
      × (is_operation (command_kind c) ≡ true)
      × (misses_total o c ≡ false)
unfolding require_binding
Operates-tests o t fp (LiveCommand.new_order c i at) x = elim x [ ]
Operates-tests o t fp (LiveCommand.cancel_order c oid at) x = elim x [ ]
Operates-tests o t fp (LiveCommand.amend_order c oid p at) (Operates.amends own early) =
    (ground (arith, own, early), refl, refl)
Operates-tests o t fp (LiveCommand.decrease_order c oid x n at)
      (Operates.decreases own total early) =
    (ground (arith, own, early), refl, ground (arith, total))

ok_injective : {a b : LiveOrder} → ◌≡◌ {A = Outcome Fault LiveOrder} (ok a) (ok b) → a ≡ b
ok_injective e = cc

bound_operation :
    (g : Grid) (k : ℕ) (o : LiveOrder) (b : PendingCommandBinding) (t : ℕ)
    → LotFits g k
    → IsValid g k o
    → check_command g b.command ≡ ok tt
    → IsFree o t
    → Operates o t b.command
    → bind_operation g o b t ≡ ok (changed o (only o.state t (some b)))
unfolding bind_operation
bound_operation g k o b t f v c free operates =
    let (bound, operation, total) = Operates-tests o t b.payload_fingerprint b.command operates in
    let working = (working_cases o.state).1 free.working in
    let later = free.later in
    let unbound = free.unbound in
    let built =
      snapshot-IsValid g k o (only o.state t (some b)) f later
        (bound-IsValid g k o b t v c later bound working) in
    rw (operation, bound, working, unbound, total) (ground (arith, built, later))

-- A cancel request that goes through for a valid order, with a command its constructor accepts, was
-- made no earlier than the order's last change, of an order that is accepted or partially filled
-- and waits for no command, with a cancellation of this very order that was asked for by then. It
-- gives the order in CANCEL_PENDING with this binding, and changes nothing else but the time and
-- the version.
pub request_cancel-Cancels :
    (g : Grid) (k : ℕ) (o : LiveOrder) (b : PendingCommandBinding) (t : ℕ) {o' : LiveOrder}
    → LotFits g k
    → IsValid g k o
    → check_command g b.command ≡ ok tt
    → request_cancel g o b t ≡ ok o'
    → IsFree o t
      × Cancels o t b.command
      × (o' ≡ changed o (only LiveOrderState.cancel_pending t (some b)))
request_cancel-Cancels g k o b t f v c h =
    let (time, bound, working, free, snap) = request_cancel-eq_ok g o b t h in
    let (kind, early, own) = require_binding-eq_ok o b LiveCommandKind.cancel t bound in
    (
      record { later = time; working = (working_cases o.state).0 working; unbound = free },
      cancel_cases o t b.command kind early own,
      ok_injective (sym h ∙ request_cancel_succeeds g k o b t f v c time bound working free),
    )

-- An AMEND or DECREASE with a command its constructor accepts is bound to a valid order, and gives
-- an order, just when it is bound no earlier than the order's last change, to an order that is
-- accepted or partially filled and waits for no command, and is an amendment of this very order, or
-- a decrease from its very total, that was asked for by then. The order it gives has this binding,
-- and nothing else of it changes but the time and the version.
pub bind_operation_iff :
    (g : Grid) (k : ℕ) (o : LiveOrder) (b : PendingCommandBinding) (t : ℕ) (o' : LiveOrder)
    → LotFits g k
    → IsValid g k o
    → check_command g b.command ≡ ok tt
    → (bind_operation g o b t ≡ ok o')
      ↔ (IsFree o t × Operates o t b.command × (o' ≡ changed o (only o.state t (some b))))
bind_operation_iff g k o b t o' f v c = (
  λ h.
      let (time, bound, working, operation, free, total, snap) = bind_operation-eq_ok g o b t h in
      let (kind, early, own) = require_binding-eq_ok o b (command_kind b.command) t bound in
      (
        record { later = time; working = (working_cases o.state).0 working; unbound = free },
        operation_cases o t b.command operation early own total,
        ok_injective (
            sym snap
            ∙ snapshot-IsValid g k o (only o.state t (some b)) f time
                (bound-IsValid g k o b t v c time bound working)),
      ),
  λ h. bound_operation g k o b t f v c h.0 h.1 ∙ ap ok (sym h.2),
)
