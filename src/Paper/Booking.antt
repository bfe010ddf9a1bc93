-- ===== src/Paper/Booking.antt =====
-- A fill that belongs to a position is booked: what `apply_fill_to_position` returns.
use tx_trader.Common.{
  ℕ, ◌+◌, ◌≡◌, refl, false, ◌&&◌, not, Option, none, some, ok, raise_if, arith, ltb, ◌==◌, same,
  is_some, is_none, differ, ℤ, ◌+ℤ◌, magnitude, is_flat, is_long, Returns, Returns-if,
  Returns-Ensures, Ensures, Ensures->>=, Ensures-if, Returns->>=, and-false, raise_if-eq_ok,
  >>-eq_ok, or_else, IfSome,
}
use tx_trader.Decimals.{Grid}
use tx_trader.Paper.Position.{
  weighted, PositionFault, PaperFill, PaperPosition, Prior, prior, is_buy, distance, delta, is_zero,
  too_long, weighted_with, new_average, booked, book, check_paper_fill, check_paper_position,
  check_continuation, apply_fill_to_position,
}

weighted_with-Fits :
    (g : Grid) (lot : ℕ) (old : ℤ) (average : Option ℕ) (d new : ℤ) (price : ℕ)
    (P : Option ℕ → Type 0)
    → ((v : ℕ) → P (some v))
    → Ensures (weighted_with g lot old average d new price) P
unfolding weighted_with
weighted_with-Fits g lot old none d new price P h = tt
weighted_with-Fits g lot old (some a) d new price P h =
    Ensures->>= P (weighted g lot (magnitude old) a (magnitude d) price (magnitude new)) _
      λ v e. h v

-- The prior average is there just when the prior quantity is not zero; then the new average, when
-- it can be computed, is there just when the new quantity is not zero.
new_average-Fits :
    (g : Grid) (lot : ℕ) (old : ℤ) (average : Option ℕ) (d : ℤ) (price : ℕ)
    → differ (is_flat old) (is_none average) ≡ false
    → is_flat d ≡ false
    → Ensures
        (new_average g lot old average d (old +ℤ d) price)
        (λ a. differ (is_flat (old +ℤ d)) (is_none a) ≡ false)
unfolding new_average ◌+ℤ◌
new_average-Fits g lot old average d price h live =
    let fits : Option ℕ → Type 0 = λ a. differ (is_flat (old +ℤ d)) (is_none a) ≡ false in
    Ensures-if fits (is_flat old) _ _ (λ flat. ground arith)
      λ held.
        Ensures-if fits (not (differ (is_long old) (is_long d))) _ _
          (λ same_sign.
            weighted_with-Fits g lot old average d (old +ℤ d) price fits (λ v. ground arith))
          λ other_sign.
            Ensures-if fits (is_flat (old +ℤ d)) _ _ (λ flat. ground arith)
              λ open_after.
                Ensures-if fits (not (differ (is_long (old +ℤ d)) (is_long old))) _ _
                  (λ reduced. ground arith) (λ turned. ground arith)

-- The new average is positive: it is a price, or a weighted average that is positive.
new_average-positive :
    (g : Grid) (lot : ℕ) (old : ℤ) (average : Option ℕ) (d : ℤ) (price : ℕ)
    → is_zero average ≡ false
    → (price == 0) ≡ false
    → (is_flat old ≡ false
        → differ (is_long old) (is_long d) ≡ false
        → Returns (weighted_with g lot old average d (old +ℤ d) price) (λ a. is_zero a ≡ false))
    → Returns (new_average g lot old average d (old +ℤ d) price) (λ a. is_zero a ≡ false)
unfolding new_average
new_average-positive g lot old average d price held priced adds =
    let positive : Option ℕ → Type 0 = λ a. is_zero a ≡ false in
    Returns-if positive (is_flat old) _ _ (λ flat. priced)
      λ open_before.
        Returns-if positive (not (differ (is_long old) (is_long d))) _ _
          (λ same_sign. adds open_before (ground (arith, same_sign)))
          λ other_sign.
            Returns-if positive (is_flat (old +ℤ d)) _ _ (λ flat. refl)
              λ open_after.
                Returns-if positive (not (differ (is_long (old +ℤ d)) (is_long old))) _ _
                  (λ reduced. held) (λ turned. priced)

fill_priced :
    (prec : ℕ) (f : PaperFill) → check_paper_fill prec f ≡ ok tt → (f.execution_price == 0) ≡ false
unfolding check_paper_fill
fill_priced prec f h =
    let (a, h1) = >>-eq_ok (raise_if (f.quantity == 0) PositionFault.not_positive) _ h in
    raise_if-eq_ok _ _
      (>>-eq_ok (raise_if (f.execution_price == 0) PositionFault.not_positive) _ h1).0

delta-live :
    (prec : ℕ) (f : PaperFill) → check_paper_fill prec f ≡ ok tt → is_flat (delta f) ≡ false
unfolding check_paper_fill
delta-live prec f h =
    let positive : (f.quantity == 0) ≡ false =
      raise_if-eq_ok _ _ (>>-eq_ok (raise_if (f.quantity == 0) PositionFault.not_positive) _ h).0 in
    ground (arith, positive)

fill_currency :
    (prec : ℕ) (f : PaperFill)
    → check_paper_fill prec f ≡ ok tt
    → differ (f.fee == 0) (is_none f.fee_currency) ≡ false
unfolding check_paper_fill
fill_currency prec f h =
    let reference = or_else f.reference_price f.execution_price in
    let (a, h1) = >>-eq_ok (raise_if (f.quantity == 0) PositionFault.not_positive) _ h in
    let (b, h2) = >>-eq_ok (raise_if (f.execution_price == 0) PositionFault.not_positive) _ h1 in
    let (c, h3) = >>-eq_ok (raise_if (reference == 0) PositionFault.not_positive) _ h2 in
    let (d, h4) =
      >>-eq_ok
        (raise_if (not (distance prec f.execution_price reference == f.slippage_amount))
          PositionFault.slippage_mismatch)
        _ h3 in
    let (e, h5) =
      >>-eq_ok (raise_if (is_buy f.side && ltb f.execution_price reference) PositionFault.buy_below)
        _ h4 in
    let (k, h6) =
      >>-eq_ok
        (raise_if (not (is_buy f.side) && ltb reference f.execution_price) PositionFault.sell_above)
        _ h5 in
    raise_if-eq_ok _ _ h6

-- The next position passes its own checks.
booked-good :
    (b : Prior) (id : ℕ) (f : PaperFill) (average : Option ℕ)
    → differ (b.fees == 0) (is_none b.currency) ≡ false
    → differ (f.fee == 0) (is_none f.fee_currency) ≡ false
    → is_zero average ≡ false
    → differ (is_flat (b.net +ℤ delta f)) (is_none average) ≡ false
    → check_paper_position (booked b id f average) ≡ ok tt
unfolding check_paper_position booked
booked-good b id f average fees fee positive fits =
    rw positive (rw fits (ground (arith, fees, fee)))

-- What booking a fill does.
pub record Booked (b : Prior) (f : PaperFill) (q : PaperPosition) : Type 0 where
  pub net : q.net_quantity ≡ b.net +ℤ delta f
  pub fees : q.cumulative_fees ≡ b.fees + f.fee
  pub next_version : q.version ≡ b.version + 1
  pub time : q.updated_at ≡ f.occurred_at
  pub good : check_paper_position q ≡ ok tt

booked-Booked :
    (b : Prior) (id : ℕ) (f : PaperFill) (average : Option ℕ)
    → check_paper_position (booked b id f average) ≡ ok tt
    → Booked b f (booked b id f average)
unfolding booked
booked-Booked b id f average h = record {
  net = refl;
  fees = refl;
  next_version = refl;
  time = refl;
  good = h;
}

book-Booked :
    (g : Grid) (lot prec : ℕ) (b : Prior) (id : ℕ) (f : PaperFill)
    → differ (is_flat b.net) (is_none b.average) ≡ false
    → differ (b.fees == 0) (is_none b.currency) ≡ false
    → check_paper_fill prec f ≡ ok tt
    → (not (f.fee == 0) && is_some b.currency && not (same b.currency f.fee_currency)) ≡ false
    → too_long (magnitude (b.net +ℤ delta f)) ≡ false
    → too_long (b.fees + f.fee) ≡ false
    → Returns
        (new_average g lot b.net b.average (delta f) (b.net +ℤ delta f) f.execution_price)
        (λ a. is_zero a ≡ false)
    → Returns (book g lot b id f) (λ q. Booked b f q)
unfolding book
book-Booked g lot prec b id f averaged charged c currency short cheap positive =
    let fits =
      new_average-Fits g lot b.net b.average (delta f) f.execution_price averaged
        (delta-live prec f c) in
    let average =
      new_average g lot b.net b.average (delta f) (b.net +ℤ delta f) f.execution_price in
    rw currency (
      rw short (
        rw cheap (
          rw (and-false (not (f.fee == 0))) (
            Returns->>=
              (λ a. (is_zero a ≡ false) × (differ (is_flat (b.net +ℤ delta f)) (is_none a) ≡ false))
              (λ q. Booked b f q) average _ (Returns-Ensures _ _ average positive fits)
              λ a e.
                let good = booked-good b id f a charged (fill_currency prec f c) e.0 e.1 in
                rw e.0 (rw good (booked-Booked b id f a good))))))

check_paper_position-averaged :
    (p : PaperPosition)
    → check_paper_position p ≡ ok tt
    → (differ (is_flat p.net_quantity) (is_none p.average_open_price) ≡ false)
      × (differ (p.cumulative_fees == 0) (is_none p.fee_currency) ≡ false)
      × (is_zero p.average_open_price ≡ false)
unfolding check_paper_position
check_paper_position-averaged p h =
    let (a, h1) =
      >>-eq_ok (raise_if (is_zero p.average_open_price) PositionFault.not_positive) _ h in
    let (b, h2) = >>-eq_ok (raise_if (p.version == 0) PositionFault.not_positive) _ h1 in
    let (c, h3) =
      >>-eq_ok
        (raise_if (differ (is_flat p.net_quantity) (is_none p.average_open_price))
          PositionFault.average_mismatch)
        _ h2 in
    (raise_if-eq_ok _ _ c, raise_if-eq_ok _ _ h3, raise_if-eq_ok _ _ a)

-- What stands before the fill holds together.
prior-averaged :
    (previous : Option PaperPosition)
    → IfSome (λ p. check_paper_position p ≡ ok tt) previous
    → (differ (is_flat (prior previous).net) (is_none (prior previous).average) ≡ false)
      × (differ ((prior previous).fees == 0) (is_none (prior previous).currency) ≡ false)
      × (is_zero (prior previous).average ≡ false)
prior-averaged none h = (refl, refl, refl)
prior-averaged (some p) h = check_paper_position-averaged p h

-- A fill that its constructor accepts, under a decimal context of some precision, is booked to a
-- position that its constructor accepts, or to none, if it belongs to the position and is not
-- older, its currency is the position's where both have one, the new quantity and the new fees are
-- below 10^34, and, where the fill adds to an open position of its own direction, the weighted
-- average of the two does not overflow and is not rounded to zero. The net quantity grows
-- by the signed quantity of the fill, the fees by its fee, the version by one; the time is the
-- fill's, and the new position passes its checks.
pub apply_fill_to_position-Booked :
    (g : Grid) (lot prec : ℕ) (identify : ℕ → ℕ → ℕ → ℕ → ℕ) (previous : Option PaperPosition)
    (f : PaperFill)
    → IfSome (λ p. check_paper_position p ≡ ok tt) previous
    → check_continuation previous
        (identify f.paper_run_id f.strategy_id f.account_id f.instrument_id)
        f
      ≡ ok tt
    → check_paper_fill prec f ≡ ok tt
    → (not (f.fee == 0)
        && is_some (prior previous).currency
        && not (same (prior previous).currency f.fee_currency))
      ≡ false
    → too_long (magnitude ((prior previous).net +ℤ delta f)) ≡ false
    → too_long ((prior previous).fees + f.fee) ≡ false
    → (is_flat (prior previous).net ≡ false
        → differ (is_long (prior previous).net) (is_long (delta f)) ≡ false
        → Returns
            (weighted_with g lot
              (prior previous).net
              (prior previous).average
              (delta f)
              ((prior previous).net +ℤ delta f)
              f.execution_price)
            (λ a. is_zero a ≡ false))
    → Returns (apply_fill_to_position g lot identify previous f) (λ q. Booked (prior previous) f q)
unfolding apply_fill_to_position
apply_fill_to_position-Booked g lot prec identify previous f v belongs c currency short cheap adds =
    let (averaged, charged, held) = prior-averaged previous v in
    let b = prior previous in
    let positive =
      new_average-positive g lot b.net b.average (delta f) f.execution_price held
        (fill_priced prec f c) adds in
    rw belongs (
      book-Booked g lot prec b (identify f.paper_run_id f.strategy_id f.account_id f.instrument_id)
        f averaged charged c currency short cheap positive)
