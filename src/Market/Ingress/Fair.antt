-- ===== src/Market/Ingress/Fair.antt =====
-- A waiting market event is not overtaken for ever.
use tx_trader.Common.{
  ℕ, suc, ◌+◌, ◌≤◌, ◌≡◌, true, some, IfSome-eq_some, eq_nat, eq_pair, eq_triple, arith,
}
use tx_trader.Market.Ingress.{
  IngressLane, CapturedEvent, IngressLimits, BoundedIngress, try_publish, Popped, market_waits,
  try_pop,
}
use tx_trader.Market.Ingress.Overtaking.{is_critical, Overtakes, try_pop-Overtakes}
use tx_trader.Market.Ingress.Publishing.{try_publish-KeepsWaiting}
use tx_trader.Market.Ingress.Giving.{try_pop-Gives}

-- `n` pops of critical events, with publications in between.
pub data CriticalPops (l : IngressLimits) (s : BoundedIngress) : ℕ → BoundedIngress → Type 0 where
  start : CriticalPops l s 0 s
  publishes :
      {n : ℕ} {t : BoundedIngress} (e : CapturedEvent)
      → CriticalPops l s n t
      → CriticalPops l s n (try_publish l t e).1
  pops :
      {n : ℕ} {t u : BoundedIngress} (lane : IngressLane) (e : CapturedEvent)
      → CriticalPops l s n t
      → try_pop l t ≡ some (lane, e, u)
      → is_critical lane ≡ true
      → CriticalPops l s (suc n) u

overtaken :
    (l : IngressLimits) (s : BoundedIngress) (n : ℕ) (t : BoundedIngress)
    → s.priority_burst ≤ l.priority_burst_limit
    → market_waits s ≡ true
    → CriticalPops l s n t
    → (n + s.priority_burst ≡ t.priority_burst)
      × (t.priority_burst ≤ l.priority_burst_limit)
      × (market_waits t ≡ true)
overtaken l s _ _ within waits CriticalPops.start = (omega arith, within, waits)
overtaken l s n _ within waits (CriticalPops.publishes {t = t} e h) =
    let (burst, limit, still) = overtaken l s n t within waits h in
    let (kept, same_burst) = try_publish-KeepsWaiting l t e in
    (omega (arith, burst, same_burst), omega (arith, limit, same_burst), kept still)
overtaken l s _ _ within waits
      (CriticalPops.pops {n = n} {t = t} {u = u} lane e h popped critical) =
    let (burst, limit, still) = overtaken l s n t within waits h in
    let (below, one_more, waiting) =
      IfSome-eq_some (Overtakes l t) (try_pop l t) (try_pop-Overtakes l t still) popped critical in
    (omega (arith, burst, one_more), omega (arith, below, one_more), waiting)

-- While a market event waits, a pop always gives an event, and at most `priority_burst_limit`
-- critical events in all are taken before a market event, however many events of any kind are
-- published in between; the burst counter of the start counts among them, and is at most the limit.
pub market_served :
    (l : IngressLimits) (s : BoundedIngress) (n : ℕ) (t : BoundedIngress)
    → s.priority_burst ≤ l.priority_burst_limit
    → market_waits s ≡ true
    → CriticalPops l s n t
    → (n + s.priority_burst ≤ l.priority_burst_limit) × ((x : Popped) × (try_pop l t ≡ some x))
market_served l s n t within waits h =
    let (burst, limit, still) = overtaken l s n t within waits h in
    (omega (arith, burst, limit), try_pop-Gives l t still)
