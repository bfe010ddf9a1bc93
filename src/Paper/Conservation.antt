-- ===== src/Paper/Conservation.antt =====
-- A sequence of fills: the position holds what they add up to.
use tx_trader.Common.{
  ℕ, ◌+◌, ◌≡◌, refl, ◌∙◌, ap, not, ◌&&◌, Option, some, List, [], ◌∷◌, Outcome, ok, ◌>>=◌, raise_if,
  >>-eq_ok, >>=-eq_ok, arith, length, ◌==◌, same, is_some, ℤ, pos, ◌+ℤ◌, +ℤ_assoc, +ℤ-zero,
  magnitude,
}
use tx_trader.Decimals.{Grid}
use tx_trader.Paper.Position.{
  PositionFault, PaperFill, PaperPosition, Prior, prior, delta, is_zero, too_long, new_average,
  booked, book, check_paper_position, check_continuation, apply_fill_to_position,
}

-- The fills that a position receives, one call after the other.
unfoldable pub apply_all :
    Grid
    → ℕ
    → (ℕ → ℕ → ℕ → ℕ → ℕ)
    → Option PaperPosition
    → List PaperFill
    → Outcome PositionFault (Option PaperPosition)
apply_all g lot identify previous [] = ok previous
apply_all g lot identify previous (f ∷ fills) = do
  position ← apply_fill_to_position g lot identify previous f
  apply_all g lot identify (some position) fills

unfoldable pub net_of : List PaperFill → ℤ
net_of [] = pos 0
net_of (f ∷ fills) = delta f +ℤ net_of fills

unfoldable pub fees_of : List PaperFill → ℕ
fees_of [] = 0
fees_of (f ∷ fills) = f.fee + fees_of fills

ok_injective :
    {a b : PaperPosition} → ◌≡◌ {A = Outcome PositionFault PaperPosition} (ok a) (ok b) → a ≡ b
ok_injective e = cc

-- What a fill adds.
record Adds (b : Prior) (f : PaperFill) (q : PaperPosition) : Type 0 where
  net : q.net_quantity ≡ b.net +ℤ delta f
  fees : q.cumulative_fees ≡ b.fees + f.fee
  next_version : q.version ≡ b.version + 1

booked-Adds :
    (b : Prior) (id : ℕ) (f : PaperFill) (average : Option ℕ) (q : PaperPosition)
    → booked b id f average ≡ q
    → Adds b f q
unfolding booked
booked-Adds b id f average q e = record { net = cc; fees = cc; next_version = cc }

book-Adds :
    (g : Grid) (lot : ℕ) (b : Prior) (id : ℕ) (f : PaperFill) {q : PaperPosition}
    → book g lot b id f ≡ ok q
    → Adds b f q
unfolding book
book-Adds g lot b id f {q = q} h =
    let (currency, h1) =
      >>-eq_ok
        (raise_if (not (f.fee == 0) && is_some b.currency && not (same b.currency f.fee_currency))
          PositionFault.currency_mismatch)
        _ h in
    let (short, h2) =
      >>-eq_ok (raise_if (too_long (magnitude (b.net +ℤ delta f))) PositionFault.arithmetic_failure)
        _ h1 in
    let (cheap, h3) =
      >>-eq_ok
        (raise_if (not (f.fee == 0) && too_long (b.fees + f.fee)) PositionFault.arithmetic_failure)
        _ h2 in
    let (average, known, h4) =
      >>=-eq_ok (new_average g lot b.net b.average (delta f) (b.net +ℤ delta f) f.execution_price) _
        h3 in
    let (positive, h5) =
      >>-eq_ok (raise_if (is_zero average) PositionFault.arithmetic_failure) _ h4 in
    let (good, h6) = >>-eq_ok (check_paper_position (booked b id f average)) _ h5 in
    booked-Adds b id f average q (ok_injective h6)

apply_fill_to_position-Adds :
    (g : Grid) (lot : ℕ) (identify : ℕ → ℕ → ℕ → ℕ → ℕ) (previous : Option PaperPosition)
    (f : PaperFill) {q : PaperPosition}
    → apply_fill_to_position g lot identify previous f ≡ ok q
    → Adds (prior previous) f q
unfolding apply_fill_to_position
apply_fill_to_position-Adds g lot identify previous f h =
    let id = identify f.paper_run_id f.strategy_id f.account_id f.instrument_id in
    let (continued, made) = >>-eq_ok (check_continuation previous id f) _ h in
    book-Adds g lot (prior previous) id f made

-- What any fills that are booked one after the other leave: the net quantity is the one before plus
-- the signed quantities of the fills, the fees are those before plus the fills' fees, and the
-- version counts the fills.
pub fills_conserved :
    (g : Grid) (lot : ℕ) (identify : ℕ → ℕ → ℕ → ℕ → ℕ) (previous : Option PaperPosition)
    (fills : List PaperFill) {last : Option PaperPosition}
    → apply_all g lot identify previous fills ≡ ok last
    → ((prior last).net ≡ (prior previous).net +ℤ net_of fills)
      × ((prior last).fees ≡ (prior previous).fees + fees_of fills)
      × ((prior last).version ≡ (prior previous).version + length fills)
unfolding apply_all net_of fees_of
fills_conserved g lot identify previous [] {last = last} h =
    let same_position : previous ≡ last = cc in
    rw (← same_position) (rw (+ℤ-zero (prior previous).net) (refl, omega arith, omega arith))
fills_conserved g lot identify previous (f ∷ fills) h =
    let (q, first, rest) = >>=-eq_ok (apply_fill_to_position g lot identify previous f) _ h in
    let added = apply_fill_to_position-Adds g lot identify previous f first in
    let (net, fees, version) = fills_conserved g lot identify (some q) fills rest in
    (
      net ∙ ap (λ x. x +ℤ net_of fills) added.net ∙ +ℤ_assoc _ _ _,
      omega (arith, fees, added.fees),
      omega (arith, version, added.next_version),
    )
