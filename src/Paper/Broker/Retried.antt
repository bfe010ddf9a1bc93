-- ===== src/Paper/Broker/Retried.antt =====
-- A submission that is repeated returns the order as it is and changes nothing.
use tx_trader.Common.{ℕ, ◌≡◌, sym, ap, ◌∙◌, Option, some, ok, Ensures-eq_ok, get, eq_nat, eq_pair}
use mathlib.Core.Path.{subst}
use tx_trader.Paper.Contracts.{OrderIntent, PaperOrder}
use tx_trader.Paper.Progress.{Life}
use tx_trader.Paper.Broker.State.{
  OrderCommandResult, Broker, resolve_cached_outcome, BrokerState, initial,
}
use tx_trader.Paper.Broker.Commands.{matching_prec, submit_key, submit}
use tx_trader.Paper.Broker.Changes.{core}
use tx_trader.Paper.Broker.Processing.{Call, Calls, Calls-Allowed}
use tx_trader.Paper.Broker.Owned.{IsSound, Calls-IsSound}
use tx_trader.Paper.Broker.Queries.{get_order}
use tx_trader.Paper.Broker.Separated.{IsSeparated}
use tx_trader.Paper.Broker.Snapshots.{Changes-IsContinued}
use tx_trader.Paper.Broker.Memory.{Remembers, Changes-Remembers, submit_remembered}
use tx_trader.Paper.Broker.Kept.{IsKept, submit-IsKept, resolve-found}

-- What a remembered order resolves to is in the store, under the same id.
resolved :
    (b : Broker) (s : BrokerState) (key : ℕ × ℕ) (digest : ℕ) (x o : PaperOrder)
    → IsSound b (core s)
    → Remembers s.submit_outcomes key digest (OrderCommandResult.of_order x)
    → resolve_cached_outcome s.orders (OrderCommandResult.of_order x)
      ≡ OrderCommandResult.of_order o
    → (get s.orders x.paper_order_id ≡ some o) × (o.paper_order_id ≡ x.paper_order_id)
resolved b s key digest x o sound (r, h, f) e =
    let (y, found) = (sound.outcomes key r h).stored digest x f in
    let resolves : OrderCommandResult.of_order y ≡ OrderCommandResult.of_order o =
      sym (resolve-found s.orders x y found) ∙ e in
    let same_order : y ≡ o = cc in
    let there : get s.orders x.paper_order_id ≡ some o = cc in
    (there, (sound.orders x.paper_order_id o there).own_id)

-- Take a broker that started empty, and whose recorded submissions can be told apart: different ids
-- are different texts, no strategy id contains the unit separator, and uuid5 does not collide on
-- their names. If after some calls a submission returns an order, then the same submission returns
-- an order after any further calls too, and the state stays as it is. The order it returns is the
-- one that the store then has under the same id, and comes from the first by validated transitions.
pub submit_idempotent :
    (b : Broker) (session : Option ℕ) {s t u : BrokerState} (i : OrderIntent) (o : PaperOrder)
    → IsSeparated b u.submit_outcomes
    → Calls b (initial session) s
    → submit b s i ≡ ok (OrderCommandResult.of_order o, t)
    → Calls b t u
    → (n : ℕ) × (q : PaperOrder) × (submit b u i ≡ ok (OrderCommandResult.of_order q, u))
      × (get u.orders o.paper_order_id ≡ some q)
      × Life matching_prec n o q
submit_idempotent b session {s = s} {t = t} {u = u} i o separated before h after =
    let sound : IsSound b (core t) =
      Calls-IsSound b session (Calls.and_then before (Call.submits i _ h)) in
    let (x, memory, resolves) = Ensures-eq_ok (IsKept b i) (submit b s i) (submit-IsKept b s i) h in
    let (there, same_id) =
      resolved b t (submit_key i) (b.submit_digest i) x o sound memory resolves in
    let (n, q, found, life) =
      Changes-IsContinued separated sound (Calls-Allowed after) x.paper_order_id o there in
    let kept : Remembers u.submit_outcomes (submit_key i) (b.submit_digest i)
        (OrderCommandResult.of_order x) =
      Changes-Remembers (Calls-Allowed after) (submit_key i) (b.submit_digest i) _ memory in
    (
      n,
      q,
      submit_remembered b u i _ kept ∙ ap (λ y. ok (y, u)) (resolve-found u.orders x q found),
      subst (λ k. get u.orders k ≡ some q) (sym same_id) found,
      life,
    )

-- What a submission returns can be read back: if, after some calls of a broker that started empty,
-- a submission returns an order, then the order's id leads to this order in the new state.
pub get_order-submit :
    (b : Broker) (session : Option ℕ) {s t : BrokerState} (i : OrderIntent) (o : PaperOrder)
    → Calls b (initial session) s
    → submit b s i ≡ ok (OrderCommandResult.of_order o, t)
    → get_order t o.paper_order_id ≡ some o
unfolding get_order
get_order-submit b session {s = s} {t = t} i o before h =
    let sound : IsSound b (core t) =
      Calls-IsSound b session (Calls.and_then before (Call.submits i _ h)) in
    let (x, memory, resolves) = Ensures-eq_ok (IsKept b i) (submit b s i) (submit-IsKept b s i) h in
    let (there, same_id) =
      resolved b t (submit_key i) (b.submit_digest i) x o sound memory resolves in
    subst (λ k. get t.orders k ≡ some o) (sym same_id) there
