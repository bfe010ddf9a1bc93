-- ===== src/Market/Tests.antt =====
-- Two sessions that take turns.
mod Lanes
use tx_trader.Common.{
  ℕ, ◌-◌, ◌<◌, ◌^◌, ◌≡◌, refl, some, false, List, [], ◌∷◌, arith, ◌==◌, Returns, if◌then◌else◌,
}
use tx_trader.Market.Sequencer.{IngestSequencer, is_exhausted, peek_last, next, run}
use tx_trader.Market.Allocation.{numbers, count, Records, run-numbers, next_in_range}

abbrev turns : List ℕ
turns = 1 ∷ 2 ∷ 1 ∷ 1 ∷ []

turns_numbered : numbers [] turns ≡ 0 ∷ 0 ∷ 1 ∷ 2 ∷ []
unfolding numbers count
turns_numbered = refl

run-numbers_example : Returns (run [] turns) (λ r. (r.0 ≡ numbers [] turns) × Records r.1 turns)
run-numbers_example = run-numbers turns (omega arith)

abbrev nearly_spent : IngestSequencer
nearly_spent = record { session = 1; last = 2 ^ 63 - 2 } ∷ []

one_left : is_exhausted (peek_last nearly_spent 1) ≡ false
unfolding peek_last
one_left = refl

next_in_range_example : Returns (next nearly_spent 1) (λ r.
    (r.0 < 2 ^ 63)
    × ((t : ℕ) → peek_last r.1 t ≡ (if 1 == t then some r.0 else peek_last nearly_spent t)))
next_in_range_example = next_in_range nearly_spent 1 one_left
