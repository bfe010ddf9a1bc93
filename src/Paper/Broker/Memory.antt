-- ===== src/Paper/Broker/Memory.antt =====
-- What a submission's record remembers stays remembered, whatever the calls.
use tx_trader.Common.{
  ℕ, ◌≡◌, refl, sym, ◌∙◌, false, Option, some, ok, Dict, get, put, eq_nat, eq_pair, get-put_self,
  get-put_other, inl, inr, Bool-cases,
}
use mathlib.Core.Path.{subst}
use native.Mathlib.Omega.{arith}
use tx_trader.Paper.Contracts.{OrderIntent}
use tx_trader.Paper.Broker.State.{
  OrderCommandResult, Broker, OutcomeRecord, find_outcome, with_alternate, has_alternate,
  resolve_cached_outcome, BrokerState,
}
use tx_trader.Paper.Broker.Commands.{submit_key, submit_known, submit_by, submit}
use tx_trader.Paper.Broker.Changes.{Core, Extends, Change, Changes}

-- The outcomes hold this one under this key and digest.
abbrev pub Remembers : Dict (ℕ × ℕ) OutcomeRecord → ℕ × ℕ → ℕ → OrderCommandResult → Type 0
Remembers outcomes key digest x =
    (r : OutcomeRecord) × (get outcomes key ≡ some r) × (find_outcome r digest ≡ some x)

find-kept :
    (r : OutcomeRecord) (d : ℕ) (y : OrderCommandResult) (digest : ℕ) (x : OrderCommandResult)
    → has_alternate r ≡ false
    → find_outcome r digest ≡ some x
    → find_outcome (with_alternate r d y) digest ≡ some x
unfolding find_outcome
find-kept r d y digest x single h = ground arith

Extends-kept :
    {o : Option OutcomeRecord} {r : OutcomeRecord} (p : OutcomeRecord) (digest : ℕ)
    (x : OrderCommandResult)
    → Extends o r
    → o ≡ some p
    → find_outcome p digest ≡ some x
    → find_outcome r digest ≡ some x
Extends-kept p digest x Extends.first h f = cc
Extends-kept p digest x (Extends.alternate {r = r} {digest = d} missing single) h f =
    let same_record : r ≡ p = cc in
    find-kept r d _ digest x single
      (subst (λ y. find_outcome y digest ≡ some x) (sym same_record) f)

put-Remembers :
    (outcomes : Dict (ℕ × ℕ) OutcomeRecord) (key' key : ℕ × ℕ) (r : OutcomeRecord) (digest : ℕ)
    (x : OrderCommandResult)
    → ((p : OutcomeRecord)
        → get outcomes key' ≡ some p
        → find_outcome p digest ≡ some x
        → find_outcome r digest ≡ some x)
    → Remembers outcomes key digest x
    → Remembers (put outcomes key' r) key digest x
put-Remembers outcomes key' key r digest x kept (p, h, f) =
    elim (Bool-cases ((eq_pair {A = ℕ} {B = ℕ} ⦃e = eq_nat⦄ ⦃f = eq_nat⦄).beq key' key)) [
      | inl hit ↦
          let same_key : key' ≡ key =
            ((eq_pair {A = ℕ} {B = ℕ} ⦃e = eq_nat⦄ ⦃f = eq_nat⦄).beq_iff key' key).0 hit in
          (
            r,
            subst (λ k. get (put outcomes key' r) k ≡ some r) same_key
                (get-put_self outcomes key' r),
            kept p (subst (λ k. get outcomes k ≡ some p) (sym same_key) h) f,
          )
      | inr miss ↦ (p, get-put_other outcomes key' key r miss ∙ h, f)
    ]

Change-Remembers :
    {b : Broker} {c d : Core}
    → Change b c d
    → (key : ℕ × ℕ) (digest : ℕ) (x : OrderCommandResult) → Remembers c.outcomes key digest x
    → Remembers d.outcomes key digest x
Change-Remembers {c = c} (Change.records key' r e) key digest x m =
    put-Remembers c.outcomes key' key r digest x (λ p h f. Extends-kept p digest x e h f) m
Change-Remembers (Change.emits es n) key digest x m = m
Change-Remembers (Change.advances id p q found checked valid) key digest x m = m
Change-Remembers {c = c} (Change.accepts o r e new checked fresh first n) key digest x m =
    put-Remembers c.outcomes _ key r digest x (λ p h f. cc) m

pub Changes-Remembers :
    {b : Broker} {c d : Core}
    → Changes b c d
    → (key : ℕ × ℕ) (digest : ℕ) (x : OrderCommandResult) → Remembers c.outcomes key digest x
    → Remembers d.outcomes key digest x
Changes-Remembers Changes.stay key digest x m = m
Changes-Remembers (Changes.then h y) key digest x m =
    Change-Remembers y key digest x (Changes-Remembers h key digest x m)

-- A submission that is remembered returns what is remembered, and the state stays.
pub submit_remembered :
    (b : Broker) (s : BrokerState) (i : OrderIntent) (x : OrderCommandResult)
    → Remembers s.submit_outcomes (submit_key i) (b.submit_digest i) x
    → submit b s i ≡ ok (resolve_cached_outcome s.orders x, s)
unfolding submit submit_by submit_known
submit_remembered b s i x (r, h, f) = rw h (rw f refl)
