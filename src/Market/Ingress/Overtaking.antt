-- ===== src/Market/Ingress/Overtaking.antt =====
-- What a pop of a critical event leaves for the market lanes.
use tx_trader.Common.{
  ℕ, ◌+◌, ◌<◌, ◌≡◌, refl, Bool, true, false, ◌&&◌, ◌||◌, not, Option, none, some, List, [], ◌∷◌,
  ltb, IfSome, IfSome-if, Dict, eq_nat, eq_pair, eq_triple, arith,
}
use tx_trader.Market.Ingress.{
  IngressLane, CapturedEvent, QuoteKey, IngressLimits, BoundedIngress, Popped, pop_diagnostic,
  pop_control, pop_quote, pop_tick, is_waiting, is_diagnostic, is_quote, pop_critical, pop_market,
  next_burst, with_burst, market_waits, critical_waits, try_pop,
}

abbrev pub is_critical : IngressLane → Bool
is_critical IngressLane.diagnostic_lane = true
is_critical IngressLane.control_lane = true
is_critical _ = false

-- A critical event is taken, and the market lanes stay.
abbrev KeepsMarket : BoundedIngress → Popped → Type 0
KeepsMarket s p = (is_critical p.0 ≡ true) × (p.2.quotes ≡ s.quotes) × (p.2.ticks ≡ s.ticks)

pop_diagnostic-KeepsMarket :
    (s : BoundedIngress) (es : List CapturedEvent) → IfSome (KeepsMarket s) (pop_diagnostic s es)
unfolding pop_diagnostic
pop_diagnostic-KeepsMarket s [] = tt
pop_diagnostic-KeepsMarket s (e ∷ es) = (refl, refl, refl)

pop_control-KeepsMarket :
    (s : BoundedIngress) (es : List CapturedEvent) → IfSome (KeepsMarket s) (pop_control s es)
unfolding pop_control
pop_control-KeepsMarket s [] = tt
pop_control-KeepsMarket s (e ∷ es) = (refl, refl, refl)

pop_critical-KeepsMarket : (s : BoundedIngress) → IfSome (KeepsMarket s) (pop_critical s)
unfolding pop_critical
pop_critical-KeepsMarket s =
    IfSome-if (KeepsMarket s) (is_waiting s.diagnostic && is_waiting s.control) _ _
      (λ _.
        IfSome-if (KeepsMarket s) (is_diagnostic s.critical_turn) _ _
          (λ _.
            pop_diagnostic-KeepsMarket (record s { critical_turn = IngressLane.control_lane })
              s.diagnostic)
          (λ _.
            pop_control-KeepsMarket (record s { critical_turn = IngressLane.diagnostic_lane })
              s.control))
      (λ _.
        IfSome-if (KeepsMarket s) (is_waiting s.diagnostic) _ _
          (λ _. pop_diagnostic-KeepsMarket s s.diagnostic)
          (λ _. pop_control-KeepsMarket s s.control))

abbrev IsMarket : Popped → Type 0
IsMarket p = is_critical p.0 ≡ false

pop_quote-IsMarket :
    (s : BoundedIngress) (es : Dict QuoteKey CapturedEvent) → IfSome IsMarket (pop_quote s es)
unfolding pop_quote
pop_quote-IsMarket s [] = tt
pop_quote-IsMarket s ((k, e) ∷ es) = refl

pop_tick-IsMarket : (s : BoundedIngress) (es : List CapturedEvent) → IfSome IsMarket (pop_tick s es)
unfolding pop_tick
pop_tick-IsMarket s [] = tt
pop_tick-IsMarket s (e ∷ es) = refl

pop_market-IsMarket : (s : BoundedIngress) → IfSome IsMarket (pop_market s)
unfolding pop_market
pop_market-IsMarket s =
    IfSome-if IsMarket (is_waiting s.quotes && is_waiting s.ticks) _ _
      (λ _.
        IfSome-if IsMarket (is_quote s.market_turn) _ _
          (λ _. pop_quote-IsMarket (record s { market_turn = IngressLane.tick_lane }) s.quotes)
          (λ _. pop_tick-IsMarket (record s { market_turn = IngressLane.quote_lane }) s.ticks))
      (λ _.
        IfSome-if IsMarket (is_waiting s.quotes) _ _ (λ _. pop_quote-IsMarket s s.quotes)
          (λ _. pop_tick-IsMarket s s.ticks))

-- What a critical event that overtakes a waiting market event leaves.
abbrev pub Overtakes : IngressLimits → BoundedIngress → Popped → Type 0
Overtakes l s p =
    is_critical p.0 ≡ true
    → (s.priority_burst < l.priority_burst_limit)
      × (p.2.priority_burst ≡ s.priority_burst + 1)
      × (market_waits p.2 ≡ true)

next_burst-eq : (l : IngressLimits) (n : ℕ) → n < l.priority_burst_limit → next_burst l n ≡ n + 1
next_burst-eq l n h = ground arith

critical-Overtakes :
    (l : IngressLimits) (s : BoundedIngress) (p : Option Popped)
    → market_waits s ≡ true
    → s.priority_burst < l.priority_burst_limit
    → IfSome (KeepsMarket s) p
    → IfSome (Overtakes l s) (with_burst (next_burst l s.priority_burst) p)
unfolding with_burst
critical-Overtakes l s none waits h k = tt
critical-Overtakes l s (some (lane, e, t)) waits h (critical, quotes, ticks) =
    λ _. (h, next_burst-eq l s.priority_burst h, rw (quotes, ticks) waits)

market-Overtakes :
    (l : IngressLimits) (s : BoundedIngress) (p : Option Popped)
    → IfSome IsMarket p
    → IfSome (Overtakes l s) (with_burst 0 p)
unfolding with_burst
market-Overtakes l s none h = tt
market-Overtakes l s (some (lane, e, t)) h = λ critical. cc

may_overtake :
    (l : IngressLimits) (c m : Bool) (n : ℕ)
    → m ≡ true
    → (c && (not m || ltb n l.priority_burst_limit)) ≡ true
    → n < l.priority_burst_limit
may_overtake l c m n waits h = ground arith

pub try_pop-Overtakes :
    (l : IngressLimits) (s : BoundedIngress)
    → market_waits s ≡ true
    → IfSome (Overtakes l s) (try_pop l s)
unfolding try_pop
try_pop-Overtakes l s waits =
    IfSome-if (Overtakes l s)
      (critical_waits s && (not (market_waits s) || ltb s.priority_burst l.priority_burst_limit)) _
      _
      (λ h.
        critical-Overtakes l s (pop_critical s) waits
          (may_overtake l (critical_waits s) (market_waits s) s.priority_burst waits h)
          (pop_critical-KeepsMarket s))
      (λ _.
        IfSome-if (Overtakes l s) (market_waits s) _ _
          (λ _. market-Overtakes l s (pop_market s) (pop_market-IsMarket s)) (λ _. tt))
