-- ===== src/Market/Ingress/Bounded.antt =====
-- The queues and the window of recent keys stay within their capacities.
use tx_trader.Common.{
  ℕ, suc, ◌≤◌, ◌<◌, ◌≡◌, refl, true, false, Option, none, some, List, [], ◌∷◌, ◌++◌, ltb, leb,
  if-both, length, Dict, get, put, Eq, eq_nat, eq_pair, eq_triple, length-put, inl, inr, Bool-cases,
  arith,
}
use tx_trader.Market.Ingress.{
  IngressLane, IngressDecision, CapturedEvent, DedupeKey, IngressLimits, BoundedIngress, lane_of,
  dedupe_key_of, is_recent, without, trimmed, moved_to_end, Published, publish_fifo, quote_key,
  publish_quote, publish_lane, remember_taken, publish_keyed, try_publish,
}

-- Every queue is within its capacity, the recent keys within theirs, and the burst within its limit.
abbrev pub IsBounded : IngressLimits → BoundedIngress → Type 0
IsBounded l s =
    (length s.diagnostic ≤ l.diagnostic_capacity)
    × (length s.control ≤ l.control_capacity)
    × (length s.quotes ≤ l.quote_capacity)
    × (length s.ticks ≤ l.tick_capacity)
    × (length s.recent ≤ l.dedupe_capacity)
    × (s.priority_burst ≤ l.priority_burst_limit)

length-append : {A : Type 0} (xs : List A) (x : A) → length (xs ++ (x ∷ [])) ≡ suc (length xs)
length-append [] x = refl
length-append (y ∷ xs) x = omega (arith, length-append xs x)

appended :
    {A : Type 0} (xs : List A) (x : A) (capacity : ℕ)
    → leb capacity (length xs) ≡ false
    → length (xs ++ (x ∷ [])) ≤ capacity
appended xs x capacity h = ground (arith, length-append xs x)

room_left : (capacity n : ℕ) → leb capacity n ≡ false → n < capacity
room_left capacity n h = ground arith

length-put_present :
    {K V : Type 0} ⦃q : Eq K⦄ (d : Dict K V) (k : K) (v u : V)
    → get d k ≡ some u
    → length (put d k v) ≡ length d
unfolding get put
length-put_present [] k v u h = cc
length-put_present ⦃q⦄ ((j, x) ∷ d) k v u h = elim (Bool-cases (q.beq j k)) [
  | inl hit ↦ rw hit refl
  | inr miss ↦
      let further : get d k ≡ some u = rw miss at h in
      rw miss (omega (arith, length-put_present d k v u further))
]

length-without : {K : Type 0} ⦃q : Eq K⦄ (k : K) (ks : List K) → length (without k ks) ≤ length ks
unfolding without
length-without k [] = omega arith
length-without ⦃q⦄ k (x ∷ ks) = elim (Bool-cases (q.beq k x)) [
  | inl hit ↦ rw hit (omega (arith, length-without k ks))
  | inr miss ↦ rw miss (omega (arith, length-without k ks))
]

length-without_recent :
    {K : Type 0} ⦃q : Eq K⦄ (k : K) (ks : List K)
    → is_recent k ks ≡ true
    → length (without k ks) < length ks
unfolding is_recent without
length-without_recent k [] h = cc
length-without_recent ⦃q⦄ k (x ∷ ks) h = elim (Bool-cases (q.beq k x)) [
  | inl hit ↦ rw hit (omega (arith, length-without k ks))
  | inr miss ↦
      let further : is_recent k ks ≡ true = rw miss at h in
      rw miss (omega (arith, length-without_recent k ks further))
]

length-trimmed : {K : Type 0} (capacity : ℕ) (ks : List K) → length (trimmed capacity ks) ≤ capacity
unfolding trimmed
length-trimmed capacity [] = omega arith
length-trimmed capacity (x ∷ ks) =
    if-both (λ xs. length xs ≤ capacity) (ltb capacity (suc (length ks))) (trimmed capacity ks)
      (x ∷ ks) (λ _. length-trimmed capacity ks) (λ h. ground (arith, h))

-- What a publication gives is bounded.
abbrev pub Within : IngressLimits → Published → Type 0
Within l r = IsBounded l r.1

publish_fifo-Within :
    (l : IngressLimits) (s : BoundedIngress) (lane : IngressLane) (e : CapturedEvent)
    → IsBounded l s
    → Within l (publish_fifo l s lane e)
unfolding publish_fifo
publish_fifo-Within l s IngressLane.diagnostic_lane e h =
    if-both (Within l) (leb l.diagnostic_capacity (length s.diagnostic))
      (IngressDecision.dropped, s)
      (IngressDecision.accepted, record s { diagnostic = s.diagnostic ++ (e ∷ []) }) (λ _. h)
      (λ room. (appended s.diagnostic e l.diagnostic_capacity room, h.1, h.2, h.3, h.4, h.5))
publish_fifo-Within l s IngressLane.tick_lane e h =
    if-both (Within l) (leb l.tick_capacity (length s.ticks)) (IngressDecision.dropped, s)
      (IngressDecision.accepted, record s { ticks = s.ticks ++ (e ∷ []) }) (λ _. h)
      (λ room. (h.0, h.1, h.2, appended s.ticks e l.tick_capacity room, h.4, h.5))
publish_fifo-Within l s IngressLane.control_lane e h =
    if-both (Within l) (leb l.control_capacity (length s.control)) (IngressDecision.dropped, s)
      (IngressDecision.accepted, record s { control = s.control ++ (e ∷ []) }) (λ _. h)
      (λ room. (h.0, appended s.control e l.control_capacity room, h.2, h.3, h.4, h.5))
publish_fifo-Within l s IngressLane.quote_lane e h =
    if-both (Within l) (leb l.control_capacity (length s.control)) (IngressDecision.dropped, s)
      (IngressDecision.accepted, record s { control = s.control ++ (e ∷ []) }) (λ _. h)
      (λ room. (h.0, appended s.control e l.control_capacity room, h.2, h.3, h.4, h.5))

publish_quote-Within :
    (l : IngressLimits) (s : BoundedIngress) (e : CapturedEvent) (pending : Option CapturedEvent)
    → get s.quotes (quote_key e) ≡ pending
    → IsBounded l s
    → Within l (publish_quote l s e pending)
unfolding publish_quote
publish_quote-Within l s e (some p) found h =
    if-both (Within l) (leb e.sequence p.sequence) (IngressDecision.duplicate, s)
      (IngressDecision.coalesced, record s { quotes = put s.quotes (quote_key e) e }) (λ _. h)
      (λ _.
        let same_length = length-put_present s.quotes (quote_key e) e p found in
        (h.0, h.1, omega (arith, same_length, h.2), h.3, h.4, h.5))
publish_quote-Within l s e none found h =
    if-both (Within l) (leb l.quote_capacity (length s.quotes)) (IngressDecision.dropped, s)
      (IngressDecision.accepted, record s { quotes = put s.quotes (quote_key e) e }) (λ _. h)
      (λ room.
        let longer = length-put s.quotes (quote_key e) e in
        let below = room_left l.quote_capacity (length s.quotes) room in
        (h.0, h.1, omega (arith, longer, below), h.3, h.4, h.5))

publish_lane-Within :
    (l : IngressLimits) (s : BoundedIngress) (lane : IngressLane) (e : CapturedEvent)
    → IsBounded l s
    → Within l (publish_lane l s lane e)
unfolding publish_lane
publish_lane-Within l s IngressLane.quote_lane e h = publish_quote-Within l s e _ refl h
publish_lane-Within l s IngressLane.diagnostic_lane e h =
    publish_fifo-Within l s IngressLane.diagnostic_lane e h
publish_lane-Within l s IngressLane.control_lane e h =
    publish_fifo-Within l s IngressLane.control_lane e h
publish_lane-Within l s IngressLane.tick_lane e h =
    publish_fifo-Within l s IngressLane.tick_lane e h

remember_taken-Within :
    (l : IngressLimits) (k : DedupeKey) (r : Published)
    → Within l r
    → Within l (remember_taken l k r)
unfolding remember_taken
remember_taken-Within l k (IngressDecision.accepted, t) h =
    (h.0, h.1, h.2, h.3, length-trimmed l.dedupe_capacity (moved_to_end k t.recent), h.5)
remember_taken-Within l k (IngressDecision.coalesced, t) h =
    (h.0, h.1, h.2, h.3, length-trimmed l.dedupe_capacity (moved_to_end k t.recent), h.5)
remember_taken-Within l k (IngressDecision.dropped, t) h = h
remember_taken-Within l k (IngressDecision.duplicate, t) h = h

publish_keyed-Within :
    (l : IngressLimits) (s : BoundedIngress) (e : CapturedEvent) (k : Option DedupeKey)
    → IsBounded l s
    → Within l (publish_keyed l s e k)
unfolding publish_keyed
publish_keyed-Within l s e none h = publish_lane-Within l s (lane_of e.captured_kind) e h
publish_keyed-Within l s e (some k) h =
    if-both (Within l) (is_recent k s.recent)
      (IngressDecision.duplicate, record s { recent = moved_to_end k s.recent })
      (remember_taken l k (publish_lane l s (lane_of e.captured_kind) e))
      (λ hit.
        let moved = length-append (without k s.recent) k in
        let fewer = length-without_recent k s.recent hit in
        (h.0, h.1, h.2, h.3, omega (arith, moved, fewer, h.4), h.5))
      (λ _.
        remember_taken-Within l k (publish_lane l s (lane_of e.captured_kind) e)
          (publish_lane-Within l s (lane_of e.captured_kind) e h))

pub try_publish-Within :
    (l : IngressLimits) (s : BoundedIngress) (e : CapturedEvent)
    → IsBounded l s
    → Within l (try_publish l s e)
unfolding try_publish
try_publish-Within l s e h = publish_keyed-Within l s e (dedupe_key_of e e.dedupe_candidate) h
