-- ===== src/Market/Allocation.antt =====
-- What the sequencer promises: the calls of each session are numbered from 0 on.
use native.Mathlib.Nat.{zero-add}
use tx_trader.Common.{
  ℕ, zero, suc, ◌+◌, ◌^◌, ◌≤◌, ◌<◌, ◌≡◌, refl, Bool-cases, true, false, Option, none, some, List,
  [], ◌∷◌, ok, arith, inl, inr, length, ◌==◌, ==_iff, ap, if◌then◌else◌, Returns, Returns->>=,
  Returns-map,
}
use tx_trader.Market.Sequencer.{
  IngestSequencer, peek_last, set_last, is_exhausted, successor, next, run,
}

-- How often a session has called.
unfoldable pub count : ℕ → List ℕ → ℕ
count s [] = 0
count s (t ∷ calls) = let rest = count s calls in if t == s then suc rest else rest

-- The last number of a session that has called this often.
abbrev pub last_of : ℕ → Option ℕ
last_of zero = none
last_of (suc n) = some n

-- The number of each call: how many calls of its session came before it. `earlier` lists those
-- before, the latest first.
unfoldable pub numbers : List ℕ → List ℕ → List ℕ
numbers earlier [] = []
numbers earlier (s ∷ calls) = count s earlier ∷ numbers (s ∷ earlier) calls

eq_self : (n : ℕ) → (n == n) ≡ true
eq_self n = ground arith

peek_last-set_last :
    (m : IngestSequencer) (s n t : ℕ)
    → peek_last (set_last m s n) t ≡ (if s == t then some n else peek_last m t)
unfolding peek_last set_last
peek_last-set_last [] s n t = refl
peek_last-set_last (e ∷ es) s n t = elim (Bool-cases (e.session == s)) [
  | inl same_session ↦ rw same_session (ground arith)
  | inr other ↦ rw other (rw (peek_last-set_last es s n t) (ground arith))
]

count-le : (s : ℕ) (calls : List ℕ) → count s calls ≤ length calls
unfolding count
count-le s [] = omega arith
count-le s (t ∷ calls) = ground (arith, count-le s calls)

successor-last_of : (n : ℕ) → successor (last_of n) ≡ n
successor-last_of zero = refl
successor-last_of (suc n) = omega arith

not-is_exhausted : (n : ℕ) → n < 2 ^ 63 → is_exhausted (last_of n) ≡ false
not-is_exhausted zero h = refl
not-is_exhausted (suc n) h = ground arith

successor_in_range : (p : Option ℕ) → is_exhausted p ≡ false → successor p < 2 ^ 63
successor_in_range none h = omega arith
successor_in_range (some n) h = ground arith

-- The sequencer holds what these calls have left.
abbrev pub Records : IngestSequencer → List ℕ → Type 0
Records m earlier = (s : ℕ) → peek_last m s ≡ last_of (count s earlier)

Records-set_last :
    (m : IngestSequencer) (earlier : List ℕ) (s : ℕ)
    → Records m earlier
    → Records (set_last m s (count s earlier)) (s ∷ earlier)
unfolding count
Records-set_last m earlier s r t =
    rw (peek_last-set_last m s (count s earlier) t) elim (Bool-cases (s == t)) [
      | inl same_session ↦
          rw same_session (ap (λ u. some (count u earlier)) ((==_iff s t).0 same_session))
      | inr other ↦ rw other (r t)
    ]

next-Records :
    (m : IngestSequencer) (earlier : List ℕ) (s : ℕ)
    → Records m earlier
    → length earlier < 2 ^ 63
    → next m s ≡ ok (count s earlier, set_last m s (count s earlier))
unfolding next
next-Records m earlier s r h = rw (r s) (
    rw (not-is_exhausted (count s earlier) (omega (arith, count-le s earlier)))
      (rw (successor-last_of (count s earlier)) refl))

-- The calls before, once these have been made too.
unfoldable pub upto : List ℕ → List ℕ → List ℕ
upto earlier [] = earlier
upto earlier (s ∷ calls) = upto (s ∷ earlier) calls

run-Records :
    (m : IngestSequencer) (earlier calls : List ℕ)
    → Records m earlier
    → length earlier + length calls ≤ 2 ^ 63
    → Returns (run m calls) (λ r. (r.0 ≡ numbers earlier calls) × Records r.1 (upto earlier calls))
unfolding run numbers upto
run-Records m earlier [] r h = (refl, r)
run-Records m earlier (s ∷ calls) r h = rw (next-Records m earlier s r (omega arith)) (
    Returns->>= (λ x. (x.0 ≡ numbers (s ∷ earlier) calls) × Records x.1 (upto (s ∷ earlier) calls))
      _ (run (set_last m s (count s earlier)) calls) _
      (run-Records (set_last m s (count s earlier)) (s ∷ earlier) calls
        (Records-set_last m earlier s r) (omega arith))
      λ x e. (ap (λ ns. count s earlier ∷ ns) e.0, e.1))

count-upto :
    (s : ℕ) (earlier calls : List ℕ)
    → count s (upto earlier calls) ≡ count s earlier + count s calls
unfolding count upto
count-upto s earlier [] = omega arith
count-upto s earlier (t ∷ calls) = rw (count-upto s (t ∷ earlier) calls) (ground arith)

Records-none : Records [] []
unfolding peek_last count
Records-none s = refl

module _ (calls : List ℕ) where
  Records-final : (m : IngestSequencer) → Records m (upto [] calls) → Records m calls
  unfolding count
  Records-final m r s =
      rw (r s) (rw (count-upto s [] calls) (ap last_of (zero-add (count s calls))))

-- Up to 2^63 calls from a new sequencer all succeed. Each call returns how many calls of its
-- session came before it, and the last number kept for a session is one less than its calls.
pub run-numbers :
    (calls : List ℕ)
    → length calls ≤ 2 ^ 63
    → Returns (run [] calls) (λ r. (r.0 ≡ numbers [] calls) × Records r.1 calls)
run-numbers calls h =
    Returns-map (λ r. (r.0 ≡ numbers [] calls) × Records r.1 (upto [] calls)) _ (run [] calls)
      (run-Records [] [] calls Records-none (omega arith)) λ r e. (e.0, Records-final calls r.1 e.1)

-- A call for a session whose last number is below 2^63 - 1, if it has one, returns, whatever else
-- the sequencer holds: the number is in range, it is the session's last one, and the other sessions
-- keep theirs.
pub next_in_range :
    (m : IngestSequencer) (s : ℕ)
    → is_exhausted (peek_last m s) ≡ false
    → Returns (next m s) (λ r.
      (r.0 < 2 ^ 63) × ((t : ℕ) → peek_last r.1 t ≡ (if s == t then some r.0 else peek_last m t)))
unfolding next
next_in_range m s left = rw left (
  successor_in_range (peek_last m s) left,
  λ t. peek_last-set_last m s (successor (peek_last m s)) t,
)
