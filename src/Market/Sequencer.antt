-- ===== src/Market/Sequencer.antt =====
-- tx_trade/market_data/sequencer.py: the cursor that each recording session hands out.
--
-- A session id is a number. The lock makes each call one step, so a run is a sequence of calls.
use tx_trader.Common.{
  ℕ, ◌+◌, ◌-◌, ◌^◌, Bool, false, Option, none, some, List, [], ◌∷◌, Outcome, ok, ◌>>=◌, ◌>>◌,
  raise_if, leb, ◌==◌, if◌then◌else◌,
}

abbrev pub max_ingest_sequence : ℕ
max_ingest_sequence = 2 ^ 63 - 1

pub data SequencerFault : Type 0 where
  overflow : SequencerFault

-- `_last_by_session`, an entry for each session that has allocated.
pub record Entry : Type 0 where
  pub session : ℕ
  pub last : ℕ

abbrev pub IngestSequencer : Type 0
IngestSequencer = List Entry

-- `peek_last`, and `dict.get` in `next`.
unfoldable pub peek_last : IngestSequencer → ℕ → Option ℕ
peek_last [] s = none
peek_last (e ∷ es) s = if e.session == s then some e.last else peek_last es s

-- `d[s] = n` on a dict.
unfoldable pub set_last : IngestSequencer → ℕ → ℕ → IngestSequencer
set_last [] s n = record { session = s; last = n } ∷ []
set_last (e ∷ es) s n =
    let rest = set_last es s n in
    if e.session == s then record { session = s; last = n } ∷ es else e ∷ rest

-- `previous >= _MAX_INGEST_SEQUENCE`, where a session that has not allocated has -1.
abbrev pub is_exhausted : Option ℕ → Bool
is_exhausted none = false
is_exhausted (some previous) = leb max_ingest_sequence previous

-- `previous + 1`.
abbrev pub successor : Option ℕ → ℕ
successor none = 0
successor (some previous) = previous + 1

unfoldable pub next : IngestSequencer → ℕ → Outcome SequencerFault (ℕ × IngestSequencer)
next m s = do
  raise_if (is_exhausted (peek_last m s)) SequencerFault.overflow
  let allocated = successor (peek_last m s)
  ok (allocated, set_last m s allocated)

-- Calls of `next`, one after the other, with what they return.
unfoldable pub run : IngestSequencer → List ℕ → Outcome SequencerFault (List ℕ × IngestSequencer)
run m [] = ok ([], m)
run m (s ∷ calls) = do (n, m') ← next m s; (ns, m'') ← run m' calls; ok (n ∷ ns, m'')
