-- ===== src/Market/Ingress.antt =====
-- tx_trade/market_data/ingress.py: the queues of `BoundedIngress`.
--
-- The lock makes a call one step. The metrics, and the health signals that follow an overflow once
-- the lock is released, are left out: no call reads them back. `popitem` and `popleft` take from
-- the front of a list.
pub mod Overtaking
pub mod Publishing
pub mod Giving
pub mod Fair
pub mod Bounded
pub mod Runs
use tx_trader.Common.{
  ℕ, suc, ◌+◌, Bool, true, false, ◌&&◌, ◌||◌, not, Option, none, some, List, [], ◌∷◌, ◌++◌, ltb,
  leb, ◌==◌, if◌then◌else◌, length, Dict, get, put, Eq, eq_nat, eq_pair, eq_triple,
}

pub data CapturedKind : Type 0 where
  quote_snapshot tick_notification connection_notification : CapturedKind
  server_time_notification stock_list_notification adapter_diagnostic : CapturedKind

-- The cross-thread lanes; `STA_QUOTE` is none of them.
pub data IngressLane : Type 0 where
  diagnostic_lane control_lane quote_lane tick_lane : IngressLane

pub data IngressDecision : Type 0 where
  accepted coalesced dropped duplicate : IngressDecision

-- The fields that the ingress reads, those of the quote's payload among them.
pub record CapturedEvent : Type 0 where
  pub captured_kind : CapturedKind
  pub session_id : ℕ
  pub connection_generation : ℕ
  pub sequence : ℕ
  pub dedupe_candidate : Option ℕ
  pub market_no_raw : ℕ
  pub stock_idx_raw : ℕ

abbrev pub QuoteKey : Type 0
QuoteKey = (ℕ × ℕ) × (ℕ × ℕ)

abbrev pub DedupeKey : Type 0
DedupeKey = ℕ × ℕ × ℕ

-- What `__init__` is given.
pub record IngressLimits : Type 0 where
  pub control_capacity : ℕ
  pub diagnostic_capacity : ℕ
  pub quote_capacity : ℕ
  pub tick_capacity : ℕ
  pub dedupe_capacity : ℕ
  pub priority_burst_limit : ℕ

pub record BoundedIngress : Type 0 where
  pub diagnostic : List CapturedEvent
  pub control : List CapturedEvent
  pub quotes : Dict QuoteKey CapturedEvent
  pub ticks : List CapturedEvent
  pub recent : List DedupeKey
  pub market_turn : IngressLane
  pub critical_turn : IngressLane
  pub priority_burst : ℕ

unfoldable pub empty_ingress : BoundedIngress
empty_ingress = record {
  diagnostic = [];
  control = [];
  quotes = [];
  ticks = [];
  recent = [];
  market_turn = IngressLane.quote_lane;
  critical_turn = IngressLane.diagnostic_lane;
  priority_burst = 0;
}

-- `_lane`
unfoldable pub lane_of : CapturedKind → IngressLane
lane_of CapturedKind.adapter_diagnostic = IngressLane.diagnostic_lane
lane_of CapturedKind.quote_snapshot = IngressLane.quote_lane
lane_of CapturedKind.tick_notification = IngressLane.tick_lane
lane_of _ = IngressLane.control_lane

-- `_dedupe_key`
abbrev pub dedupe_key_of : CapturedEvent → Option ℕ → Option DedupeKey
dedupe_key_of e none = none
dedupe_key_of e (some candidate) = some (e.session_id, e.connection_generation, candidate)

unfoldable pub is_recent : {K : Type 0} ⦃e : Eq K⦄ → K → List K → Bool
is_recent ⦃e⦄ k [] = false
is_recent ⦃e⦄ k (x ∷ xs) = e.beq k x || is_recent k xs

-- The keys but this one.
unfoldable pub without : {K : Type 0} ⦃e : Eq K⦄ → K → List K → List K
without ⦃e⦄ k [] = []
without ⦃e⦄ k (x ∷ xs) = let rest = without k xs in if e.beq k x then rest else x ∷ rest

-- `move_to_end`, of a key that may be new.
abbrev pub moved_to_end : {K : Type 0} ⦃e : Eq K⦄ → K → List K → List K
moved_to_end k ks = without k ks ++ (k ∷ [])

-- `while len(...) > capacity: popitem(last=False)`
unfoldable pub trimmed : {K : Type 0} → ℕ → List K → List K
trimmed capacity [] = []
trimmed capacity (x ∷ xs) =
    let rest = trimmed capacity xs in if ltb capacity (suc (length xs)) then rest else x ∷ xs

-- `_remember`
abbrev pub remember : IngressLimits → DedupeKey → List DedupeKey → List DedupeKey
remember l k ks = trimmed l.dedupe_capacity (moved_to_end k ks)

abbrev pub Published : Type 0
Published = IngressDecision × BoundedIngress

-- `_publish_fifo`; a quote never comes here.
unfoldable pub publish_fifo :
    IngressLimits → BoundedIngress → IngressLane → CapturedEvent → Published
publish_fifo l s IngressLane.diagnostic_lane e =
    if leb l.diagnostic_capacity (length s.diagnostic)
    then (IngressDecision.dropped, s)
    else (IngressDecision.accepted, record s { diagnostic = s.diagnostic ++ (e ∷ []) })
publish_fifo l s IngressLane.tick_lane e =
    if leb l.tick_capacity (length s.ticks)
    then (IngressDecision.dropped, s)
    else (IngressDecision.accepted, record s { ticks = s.ticks ++ (e ∷ []) })
publish_fifo l s _ e =
    if leb l.control_capacity (length s.control)
    then (IngressDecision.dropped, s)
    else (IngressDecision.accepted, record s { control = s.control ++ (e ∷ []) })

abbrev pub quote_key : CapturedEvent → QuoteKey
quote_key e = ((e.session_id, e.connection_generation), (e.market_no_raw, e.stock_idx_raw))

-- `_publish_quote`, with the pending quote of the same key, if there is one; a replacement stays at
-- its place in the queue.
unfoldable pub publish_quote :
    IngressLimits → BoundedIngress → CapturedEvent → Option CapturedEvent → Published
publish_quote l s e (some pending) =
    if leb e.sequence pending.sequence
    then (IngressDecision.duplicate, s)
    else (IngressDecision.coalesced, record s { quotes = put s.quotes (quote_key e) e })
publish_quote l s e none =
    if leb l.quote_capacity (length s.quotes)
    then (IngressDecision.dropped, s)
    else (IngressDecision.accepted, record s { quotes = put s.quotes (quote_key e) e })

unfoldable pub publish_lane :
    IngressLimits → BoundedIngress → IngressLane → CapturedEvent → Published
publish_lane l s IngressLane.quote_lane e = publish_quote l s e (get s.quotes (quote_key e))
publish_lane l s lane e = publish_fifo l s lane e

-- The key of an event that has been taken is remembered.
unfoldable pub remember_taken : IngressLimits → DedupeKey → Published → Published
remember_taken l k (IngressDecision.accepted, s) =
    (IngressDecision.accepted, record s { recent = remember l k s.recent })
remember_taken l k (IngressDecision.coalesced, s) =
    (IngressDecision.coalesced, record s { recent = remember l k s.recent })
remember_taken l k (decision, s) = (decision, s)

unfoldable pub publish_keyed :
    IngressLimits → BoundedIngress → CapturedEvent → Option DedupeKey → Published
publish_keyed l s e none = publish_lane l s (lane_of e.captured_kind) e
publish_keyed l s e (some k) =
    if is_recent k s.recent
    then (IngressDecision.duplicate, record s { recent = moved_to_end k s.recent })
    else remember_taken l k (publish_lane l s (lane_of e.captured_kind) e)

-- `try_publish`, under the lock.
unfoldable pub try_publish : IngressLimits → BoundedIngress → CapturedEvent → Published
try_publish l s e = publish_keyed l s e (dedupe_key_of e e.dedupe_candidate)

-- An event that has been taken from a lane, and the rest.
abbrev pub Popped : Type 0
Popped = IngressLane × CapturedEvent × BoundedIngress

-- The front of each lane; the callers have seen that there is one.
unfoldable pub pop_diagnostic : BoundedIngress → List CapturedEvent → Option Popped
pop_diagnostic s [] = none
pop_diagnostic s (e ∷ es) = some (IngressLane.diagnostic_lane, e, record s { diagnostic = es })

unfoldable pub pop_control : BoundedIngress → List CapturedEvent → Option Popped
pop_control s [] = none
pop_control s (e ∷ es) = some (IngressLane.control_lane, e, record s { control = es })

unfoldable pub pop_quote : BoundedIngress → Dict QuoteKey CapturedEvent → Option Popped
pop_quote s [] = none
pop_quote s ((k, e) ∷ es) = some (IngressLane.quote_lane, e, record s { quotes = es })

unfoldable pub pop_tick : BoundedIngress → List CapturedEvent → Option Popped
pop_tick s [] = none
pop_tick s (e ∷ es) = some (IngressLane.tick_lane, e, record s { ticks = es })

abbrev pub is_waiting : {A : Type 0} → List A → Bool
is_waiting [] = false
is_waiting (x ∷ xs) = true

abbrev pub is_diagnostic : IngressLane → Bool
is_diagnostic IngressLane.diagnostic_lane = true
is_diagnostic _ = false

abbrev pub is_quote : IngressLane → Bool
is_quote IngressLane.quote_lane = true
is_quote _ = false

-- `_pop_critical`; when both lanes wait, they take turns.
unfoldable pub pop_critical : BoundedIngress → Option Popped
pop_critical s =
    if is_waiting s.diagnostic && is_waiting s.control
    then (if is_diagnostic s.critical_turn
        then pop_diagnostic (record s { critical_turn = IngressLane.control_lane }) s.diagnostic
        else pop_control (record s { critical_turn = IngressLane.diagnostic_lane }) s.control)
    else if is_waiting s.diagnostic
    then pop_diagnostic s s.diagnostic
    else pop_control s s.control

-- `_pop_market`
unfoldable pub pop_market : BoundedIngress → Option Popped
pop_market s =
    if is_waiting s.quotes && is_waiting s.ticks
    then (if is_quote s.market_turn
        then pop_quote (record s { market_turn = IngressLane.tick_lane }) s.quotes
        else pop_tick (record s { market_turn = IngressLane.quote_lane }) s.ticks)
    else if is_waiting s.quotes
    then pop_quote s s.quotes
    else pop_tick s s.ticks

-- `min(self._priority_burst + 1, self._priority_burst_limit)`
abbrev pub next_burst : IngressLimits → ℕ → ℕ
next_burst l n = if ltb (n + 1) l.priority_burst_limit then n + 1 else l.priority_burst_limit

unfoldable pub with_burst : ℕ → Option Popped → Option Popped
with_burst n none = none
with_burst n (some (lane, e, s)) = some (lane, e, record s { priority_burst = n })

abbrev pub market_waits : BoundedIngress → Bool
market_waits s = is_waiting s.quotes || is_waiting s.ticks

abbrev pub critical_waits : BoundedIngress → Bool
critical_waits s = is_waiting s.diagnostic || is_waiting s.control

-- `try_pop`
unfoldable pub try_pop : IngressLimits → BoundedIngress → Option Popped
try_pop l s =
    if critical_waits s && (not (market_waits s) || ltb s.priority_burst l.priority_burst_limit)
    then with_burst (next_burst l s.priority_burst) (pop_critical s)
    else if market_waits s
    then with_burst 0 (pop_market s)
    else none
