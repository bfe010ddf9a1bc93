-- ===== src/Market/Ingress/Giving.antt =====
-- A pop gives an event while a market event waits.
use tx_trader.Common.{
  ℕ, ◌≡◌, refl, Bool, true, false, ◌&&◌, ◌||◌, not, Option, none, some, List, [], ◌∷◌, ltb, if-both,
  Dict, eq_nat, eq_pair, eq_triple,
}
use tx_trader.Market.Ingress.{
  CapturedEvent, QuoteKey, IngressLimits, BoundedIngress, Popped, pop_diagnostic, pop_control,
  pop_quote, pop_tick, is_waiting, is_diagnostic, is_quote, pop_critical, pop_market, with_burst,
  market_waits, critical_waits, try_pop,
}

abbrev pub Gives : Option Popped → Type 0
Gives p = (x : Popped) × (p ≡ some x)

pop_diagnostic-Gives :
    (s : BoundedIngress) (es : List CapturedEvent)
    → is_waiting es ≡ true
    → Gives (pop_diagnostic s es)
unfolding pop_diagnostic
pop_diagnostic-Gives s [] h = cc
pop_diagnostic-Gives s (e ∷ es) h = (_, refl)

pop_control-Gives :
    (s : BoundedIngress) (es : List CapturedEvent) → is_waiting es ≡ true → Gives (pop_control s es)
unfolding pop_control
pop_control-Gives s [] h = cc
pop_control-Gives s (e ∷ es) h = (_, refl)

pop_quote-Gives :
    (s : BoundedIngress) (es : Dict QuoteKey CapturedEvent)
    → is_waiting es ≡ true
    → Gives (pop_quote s es)
unfolding pop_quote
pop_quote-Gives s [] h = cc
pop_quote-Gives s ((k, e) ∷ es) h = (_, refl)

pop_tick-Gives :
    (s : BoundedIngress) (es : List CapturedEvent) → is_waiting es ≡ true → Gives (pop_tick s es)
unfolding pop_tick
pop_tick-Gives s [] h = cc
pop_tick-Gives s (e ∷ es) h = (_, refl)

both_wait : (b c : Bool) → (b && c) ≡ true → (b ≡ true) × (c ≡ true)
both_wait true c h = (refl, h)
both_wait false c h = cc

other_waits : (b c : Bool) → (b || c) ≡ true → b ≡ false → c ≡ true
other_waits true c h e = cc
other_waits false c h e = h

pop_critical-Gives : (s : BoundedIngress) → critical_waits s ≡ true → Gives (pop_critical s)
unfolding pop_critical
pop_critical-Gives s h =
    if-both Gives (is_waiting s.diagnostic && is_waiting s.control) _ _
      (λ both.
        let (first, second) = both_wait (is_waiting s.diagnostic) (is_waiting s.control) both in
        if-both Gives (is_diagnostic s.critical_turn) _ _
          (λ _. pop_diagnostic-Gives _ s.diagnostic first)
          (λ _. pop_control-Gives _ s.control second))
      (λ _.
        if-both Gives (is_waiting s.diagnostic) _ _ (λ w. pop_diagnostic-Gives s s.diagnostic w)
          (λ w.
            pop_control-Gives s s.control
              (other_waits (is_waiting s.diagnostic) (is_waiting s.control) h w)))

pop_market-Gives : (s : BoundedIngress) → market_waits s ≡ true → Gives (pop_market s)
unfolding pop_market
pop_market-Gives s h =
    if-both Gives (is_waiting s.quotes && is_waiting s.ticks) _ _
      (λ both.
        let (first, second) = both_wait (is_waiting s.quotes) (is_waiting s.ticks) both in
        if-both Gives (is_quote s.market_turn) _ _ (λ _. pop_quote-Gives _ s.quotes first)
          (λ _. pop_tick-Gives _ s.ticks second))
      (λ _.
        if-both Gives (is_waiting s.quotes) _ _ (λ w. pop_quote-Gives s s.quotes w)
          (λ w.
            pop_tick-Gives s s.ticks (other_waits (is_waiting s.quotes) (is_waiting s.ticks) h w)))

with_burst-Gives : (n : ℕ) (p : Option Popped) → Gives p → Gives (with_burst n p)
unfolding with_burst
with_burst-Gives n none (x, h) = cc
with_burst-Gives n (some (lane, e, s)) h = (_, refl)

pub try_pop-Gives :
    (l : IngressLimits) (s : BoundedIngress) → market_waits s ≡ true → Gives (try_pop l s)
unfolding try_pop
try_pop-Gives l s h =
    let overtakes = not (market_waits s) || ltb s.priority_burst l.priority_burst_limit in
    if-both Gives (critical_waits s && overtakes) _ _
      (λ b.
        with_burst-Gives _ (pop_critical s)
          (pop_critical-Gives s (both_wait (critical_waits s) overtakes b).0))
      (λ _.
        if-both Gives (market_waits s) _ _
          (λ w. with_burst-Gives 0 (pop_market s) (pop_market-Gives s w)) (λ w. cc))
