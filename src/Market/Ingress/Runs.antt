-- ===== src/Market/Ingress/Runs.antt =====
-- Any calls of the ingress keep its queues within their capacities.
use tx_trader.Common.{
  ℕ, ◌≤◌, ◌≡◌, ◌&&◌, ◌||◌, not, Option, none, some, List, [], ◌∷◌, ltb, IfSome, IfSome-if,
  IfSome-eq_some, length, Dict, eq_nat, eq_pair, eq_triple, arith,
}
use tx_trader.Market.Ingress.{
  IngressLane, CapturedEvent, QuoteKey, IngressLimits, BoundedIngress, empty_ingress, try_publish,
  Popped, pop_diagnostic, pop_control, pop_quote, pop_tick, is_waiting, is_diagnostic, is_quote,
  pop_critical, pop_market, next_burst, with_burst, market_waits, critical_waits, try_pop,
}
use tx_trader.Market.Ingress.Bounded.{IsBounded, try_publish-Within}

-- What a pop leaves is bounded.
abbrev Leaves : IngressLimits → Popped → Type 0
Leaves l p = IsBounded l p.2

pop_diagnostic-Leaves :
    (l : IngressLimits) (s : BoundedIngress) (es : List CapturedEvent)
    → IsBounded l s
    → length es ≤ l.diagnostic_capacity
    → IfSome (Leaves l) (pop_diagnostic s es)
unfolding pop_diagnostic
pop_diagnostic-Leaves l s [] h few = tt
pop_diagnostic-Leaves l s (e ∷ es) h few = (omega (arith, few), h.1, h.2, h.3, h.4, h.5)

pop_control-Leaves :
    (l : IngressLimits) (s : BoundedIngress) (es : List CapturedEvent)
    → IsBounded l s
    → length es ≤ l.control_capacity
    → IfSome (Leaves l) (pop_control s es)
unfolding pop_control
pop_control-Leaves l s [] h few = tt
pop_control-Leaves l s (e ∷ es) h few = (h.0, omega (arith, few), h.2, h.3, h.4, h.5)

pop_quote-Leaves :
    (l : IngressLimits) (s : BoundedIngress) (es : Dict QuoteKey CapturedEvent)
    → IsBounded l s
    → length es ≤ l.quote_capacity
    → IfSome (Leaves l) (pop_quote s es)
unfolding pop_quote
pop_quote-Leaves l s [] h few = tt
pop_quote-Leaves l s ((k, e) ∷ es) h few = (h.0, h.1, omega (arith, few), h.3, h.4, h.5)

pop_tick-Leaves :
    (l : IngressLimits) (s : BoundedIngress) (es : List CapturedEvent)
    → IsBounded l s
    → length es ≤ l.tick_capacity
    → IfSome (Leaves l) (pop_tick s es)
unfolding pop_tick
pop_tick-Leaves l s [] h few = tt
pop_tick-Leaves l s (e ∷ es) h few = (h.0, h.1, h.2, omega (arith, few), h.4, h.5)

pop_critical-Leaves :
    (l : IngressLimits) (s : BoundedIngress) → IsBounded l s → IfSome (Leaves l) (pop_critical s)
unfolding pop_critical
pop_critical-Leaves l s h =
    IfSome-if (Leaves l) (is_waiting s.diagnostic && is_waiting s.control) _ _
      (λ _.
        IfSome-if (Leaves l) (is_diagnostic s.critical_turn) _ _
          (λ _. pop_diagnostic-Leaves l _ s.diagnostic h h.0)
          (λ _. pop_control-Leaves l _ s.control h h.1))
      (λ _.
        IfSome-if (Leaves l) (is_waiting s.diagnostic) _ _
          (λ _. pop_diagnostic-Leaves l s s.diagnostic h h.0)
          (λ _. pop_control-Leaves l s s.control h h.1))

pop_market-Leaves :
    (l : IngressLimits) (s : BoundedIngress) → IsBounded l s → IfSome (Leaves l) (pop_market s)
unfolding pop_market
pop_market-Leaves l s h =
    IfSome-if (Leaves l) (is_waiting s.quotes && is_waiting s.ticks) _ _
      (λ _.
        IfSome-if (Leaves l) (is_quote s.market_turn) _ _ (λ _. pop_quote-Leaves l _ s.quotes h h.2)
          (λ _. pop_tick-Leaves l _ s.ticks h h.3))
      (λ _.
        IfSome-if (Leaves l) (is_waiting s.quotes) _ _ (λ _. pop_quote-Leaves l s s.quotes h h.2)
          (λ _. pop_tick-Leaves l s s.ticks h h.3))

with_burst-Leaves :
    (l : IngressLimits) (n : ℕ) (p : Option Popped)
    → n ≤ l.priority_burst_limit
    → IfSome (Leaves l) p
    → IfSome (Leaves l) (with_burst n p)
unfolding with_burst
with_burst-Leaves l n none below h = tt
with_burst-Leaves l n (some (lane, e, t)) below h = (h.0, h.1, h.2, h.3, h.4, below)

next_burst-within : (l : IngressLimits) (n : ℕ) → next_burst l n ≤ l.priority_burst_limit
next_burst-within l n = ground arith

try_pop-Leaves :
    (l : IngressLimits) (s : BoundedIngress) → IsBounded l s → IfSome (Leaves l) (try_pop l s)
unfolding try_pop
try_pop-Leaves l s h =
    IfSome-if (Leaves l)
      (critical_waits s && (not (market_waits s) || ltb s.priority_burst l.priority_burst_limit)) _
      _
      (λ _.
        with_burst-Leaves l _ (pop_critical s) (next_burst-within l s.priority_burst)
          (pop_critical-Leaves l s h))
      (λ _.
        IfSome-if (Leaves l) (market_waits s) _ _
          (λ _. with_burst-Leaves l 0 (pop_market s) (omega arith) (pop_market-Leaves l s h))
          (λ _. tt))

-- Any calls, one after the other, from an empty ingress.
pub data Ran (l : IngressLimits) : BoundedIngress → Type 0 where
  fresh : Ran l empty_ingress
  published : {s : BoundedIngress} (e : CapturedEvent) → Ran l s → Ran l (try_publish l s e).1
  popped :
      {s t : BoundedIngress} (lane : IngressLane) (e : CapturedEvent)
      → Ran l s
      → try_pop l s ≡ some (lane, e, t)
      → Ran l t

-- Whatever is published and taken, in any order, no lane holds more events than its capacity, no
-- more than the given count of recent keys are kept, and the burst counter is at most its limit.
pub Ran-IsBounded : (l : IngressLimits) (s : BoundedIngress) → Ran l s → IsBounded l s
unfolding empty_ingress
Ran-IsBounded l _ Ran.fresh =
    (omega arith, omega arith, omega arith, omega arith, omega arith, omega arith)
Ran-IsBounded l _ (Ran.published {s = s} e h) = try_publish-Within l s e (Ran-IsBounded l s h)
Ran-IsBounded l t (Ran.popped {s = s} lane e h taken) =
    IfSome-eq_some (Leaves l) (try_pop l s) (try_pop-Leaves l s (Ran-IsBounded l s h)) taken
