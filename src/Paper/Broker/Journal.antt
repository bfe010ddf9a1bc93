-- ===== src/Paper/Broker/Journal.antt =====
-- The journal is numbered without gaps, whatever the calls.
use tx_trader.Common.{ℕ, suc, ◌+◌, ◌≡◌, refl, Option, List, [], ◌∷◌, ◌++◌, arith, length}
use mathlib.Core.Path.{subst}
use tx_trader.Paper.Events.{PaperEvent}
use tx_trader.Paper.Broker.State.{Broker, BrokerState, initial}
use tx_trader.Paper.Broker.Changes.{Core, core, NumberedFrom, Change, Changes}
use tx_trader.Paper.Broker.Processing.{Calls, Calls-Allowed}

-- The events are numbered from 1 on, and the next number is the one after the last.
pub record IsJournalled (c : Core) : Type 0 where
  pub numbered : NumberedFrom 1 c.events
  pub counted : c.next ≡ length c.events + 1

length-++ : {A : Type 0} (xs ys : List A) → length (xs ++ ys) ≡ length xs + length ys
length-++ [] ys = omega arith
length-++ (x ∷ xs) ys = omega (arith, length-++ xs ys)

NumberedFrom-++ :
    (n : ℕ) (es fs : List PaperEvent)
    → NumberedFrom n es
    → NumberedFrom (length es + n) fs
    → NumberedFrom n (es ++ fs)
NumberedFrom-++ n [] fs h h' = subst (λ j. NumberedFrom j fs) (omega arith) h'
NumberedFrom-++ n (e ∷ es) fs (first, h) h' =
    (first, NumberedFrom-++ (n + 1) es fs h (shifted n (length es) fs h'))
  where
    shifted :
        (n k : ℕ) (fs : List PaperEvent)
        → NumberedFrom (suc k + n) fs
        → NumberedFrom (k + (n + 1)) fs
    shifted n k fs h = subst (λ j. NumberedFrom j fs) (omega arith) h

emitted :
    (c : Core) (es : List PaperEvent)
    → IsJournalled c
    → NumberedFrom c.next es
    → (NumberedFrom 1 (c.events ++ es)) × (c.next + length es ≡ length (c.events ++ es) + 1)
emitted c es h n = (
  NumberedFrom-++ 1 c.events es h.numbered (subst (λ j. NumberedFrom j es) h.counted n),
  omega (arith, h.counted, length-++ c.events es),
)

Change-IsJournalled : {b : Broker} {c d : Core} → Change b c d → IsJournalled c → IsJournalled d
Change-IsJournalled (Change.records key r e) h = record {
  numbered = h.numbered;
  counted = h.counted;
}
Change-IsJournalled (Change.emits {c = c} es n) h =
    let (numbered, counted) = emitted c es h n in record { numbered = numbered; counted = counted }
Change-IsJournalled (Change.advances id p q found checked valid) h = record {
  numbered = h.numbered;
  counted = h.counted;
}
Change-IsJournalled (Change.accepts {c = c} o r e new checked fresh first n) h =
    let (numbered, counted) = emitted c (e ∷ []) h (n, tt) in
    record { numbered = numbered; counted = counted }

Changes-IsJournalled : {b : Broker} {c d : Core} → Changes b c d → IsJournalled c → IsJournalled d
Changes-IsJournalled Changes.stay h = h
Changes-IsJournalled (Changes.then x y) h = Change-IsJournalled y (Changes-IsJournalled x h)

initial-IsJournalled : (session : Option ℕ) → IsJournalled (core (initial session))
unfolding initial
initial-IsJournalled session = record { numbered = tt; counted = refl }

-- After any calls of a broker that started empty, its events are numbered 1, 2, 3 and so on without
-- a gap, and the next number is one more than the count of the events.
pub Calls-IsJournalled :
    (b : Broker) (session : Option ℕ) {s : BrokerState}
    → Calls b (initial session) s
    → IsJournalled (core s)
Calls-IsJournalled b session h =
    Changes-IsJournalled (Calls-Allowed h) (initial-IsJournalled session)
