-- ===== src/Market/Ingress/Publishing.antt =====
-- A publication leaves a waiting market event waiting.
use tx_trader.Common.{
  ◌≡◌, refl, Bool, true, false, ◌||◌, Option, none, some, List, [], ◌∷◌, ◌++◌, if-both, Dict, put,
  Eq, eq_nat, eq_pair, eq_triple, inl, inr, Bool-cases,
}
use tx_trader.Market.Ingress.{
  IngressLane, IngressDecision, CapturedEvent, DedupeKey, IngressLimits, BoundedIngress, lane_of,
  is_recent, moved_to_end, Published, publish_fifo, quote_key, publish_quote, publish_lane,
  remember_taken, publish_keyed, try_publish, is_waiting, market_waits,
}

-- A publication leaves a waiting market event waiting, and the burst as it is.
abbrev pub KeepsWaiting : BoundedIngress → Published → Type 0
KeepsWaiting s r =
    (market_waits s ≡ true → market_waits r.1 ≡ true) × (r.1.priority_burst ≡ s.priority_burst)

put-waits : {K V : Type 0} ⦃q : Eq K⦄ (d : Dict K V) (k : K) (v : V) → is_waiting (put d k v) ≡ true
unfolding put
put-waits [] k v = refl
put-waits ⦃q⦄ ((j, x) ∷ d) k v = elim (Bool-cases (q.beq j k)) [
  | inl h ↦ rw h refl
  | inr h ↦ rw h refl
]

append_waits : (xs : List CapturedEvent) (e : CapturedEvent) → is_waiting (xs ++ (e ∷ [])) ≡ true
append_waits [] e = refl
append_waits (x ∷ xs) e = refl

or_true : (b c : Bool) → c ≡ true → (b || c) ≡ true
or_true true c h = refl
or_true false c h = h

publish_fifo-KeepsWaiting :
    (l : IngressLimits) (s : BoundedIngress) (lane : IngressLane) (e : CapturedEvent)
    → KeepsWaiting s (publish_fifo l s lane e)
unfolding publish_fifo
publish_fifo-KeepsWaiting l s IngressLane.diagnostic_lane e =
    if-both (KeepsWaiting s) _ _ _ (λ _. (λ h. h, refl)) (λ _. (λ h. h, refl))
publish_fifo-KeepsWaiting l s IngressLane.tick_lane e =
    if-both (KeepsWaiting s) _ _ _ (λ _. (λ h. h, refl))
      (λ _. (λ h. or_true (is_waiting s.quotes) _ (append_waits s.ticks e), refl))
publish_fifo-KeepsWaiting l s IngressLane.control_lane e =
    if-both (KeepsWaiting s) _ _ _ (λ _. (λ h. h, refl)) (λ _. (λ h. h, refl))
publish_fifo-KeepsWaiting l s IngressLane.quote_lane e =
    if-both (KeepsWaiting s) _ _ _ (λ _. (λ h. h, refl)) (λ _. (λ h. h, refl))

publish_quote-KeepsWaiting :
    (l : IngressLimits) (s : BoundedIngress) (e : CapturedEvent) (pending : Option CapturedEvent)
    → KeepsWaiting s (publish_quote l s e pending)
unfolding publish_quote
publish_quote-KeepsWaiting l s e (some pending) =
    if-both (KeepsWaiting s) _ _ _ (λ _. (λ h. h, refl))
      (λ _. (λ h. rw (put-waits s.quotes (quote_key e) e) refl, refl))
publish_quote-KeepsWaiting l s e none =
    if-both (KeepsWaiting s) _ _ _ (λ _. (λ h. h, refl))
      (λ _. (λ h. rw (put-waits s.quotes (quote_key e) e) refl, refl))

publish_lane-KeepsWaiting :
    (l : IngressLimits) (s : BoundedIngress) (lane : IngressLane) (e : CapturedEvent)
    → KeepsWaiting s (publish_lane l s lane e)
unfolding publish_lane
publish_lane-KeepsWaiting l s IngressLane.quote_lane e = publish_quote-KeepsWaiting l s e _
publish_lane-KeepsWaiting l s IngressLane.diagnostic_lane e =
    publish_fifo-KeepsWaiting l s IngressLane.diagnostic_lane e
publish_lane-KeepsWaiting l s IngressLane.control_lane e =
    publish_fifo-KeepsWaiting l s IngressLane.control_lane e
publish_lane-KeepsWaiting l s IngressLane.tick_lane e =
    publish_fifo-KeepsWaiting l s IngressLane.tick_lane e

remember_taken-KeepsWaiting :
    (l : IngressLimits) (k : DedupeKey) (s : BoundedIngress) (r : Published)
    → KeepsWaiting s r
    → KeepsWaiting s (remember_taken l k r)
unfolding remember_taken
remember_taken-KeepsWaiting l k s (IngressDecision.accepted, t) h = h
remember_taken-KeepsWaiting l k s (IngressDecision.coalesced, t) h = h
remember_taken-KeepsWaiting l k s (IngressDecision.dropped, t) h = h
remember_taken-KeepsWaiting l k s (IngressDecision.duplicate, t) h = h

publish_keyed-KeepsWaiting :
    (l : IngressLimits) (s : BoundedIngress) (e : CapturedEvent) (k : Option DedupeKey)
    → KeepsWaiting s (publish_keyed l s e k)
unfolding publish_keyed
publish_keyed-KeepsWaiting l s e none = publish_lane-KeepsWaiting l s _ e
publish_keyed-KeepsWaiting l s e (some k) =
    if-both (KeepsWaiting s) (is_recent k s.recent)
      (IngressDecision.duplicate, record s { recent = moved_to_end k s.recent })
      (remember_taken l k (publish_lane l s (lane_of e.captured_kind) e)) (λ _. (λ h. h, refl))
      (λ _.
        remember_taken-KeepsWaiting l k s (publish_lane l s (lane_of e.captured_kind) e)
          (publish_lane-KeepsWaiting l s (lane_of e.captured_kind) e))

pub try_publish-KeepsWaiting :
    (l : IngressLimits) (s : BoundedIngress) (e : CapturedEvent)
    → KeepsWaiting s (try_publish l s e)
unfolding try_publish
try_publish-KeepsWaiting l s e = publish_keyed-KeepsWaiting l s e _
