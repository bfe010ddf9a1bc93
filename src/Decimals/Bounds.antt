-- ===== src/Decimals/Bounds.antt =====
-- Amounts on one lot are admissible Decimals.
use native.Mathlib.Nat.{
  dvd_of_mod-eq-zero, dvd-mul_left_of_dvd, mod-eq-zero_of_dvd, one-le-pow, mul-lt-mul_of_pos_right,
}
use tx_trader.Common.{ℕ, ◌*◌, ◌%◌, ◌^◌, ◌≤◌, ◌<◌, ◌≡◌, true, arith}
use tx_trader.Decimals.{Grid, in_bounds}
use tx_trader.Decimals.Exact.{OnLot, round_to-exact}

-- The lot lies between the finest and the coarsest place that the checks admit.
pub record LotFits (g : Grid) (k : ℕ) : Type 0 where
  pub on_grid : 10 ^ k % g.finest ≡ 0
  pub below : 10 ^ 28 * 10 ^ k ≤ 10 ^ 34 * g.coarsest

whole_on_grid : (m p d : ℕ) → p % d ≡ 0 → m * p % d ≡ 0
whole_on_grid m p d h = mod-eq-zero_of_dvd d (dvd-mul_left_of_dvd d (dvd_of_mod-eq-zero d h) m)

pub in_bounds-OnLot : (g : Grid) (k v : ℕ) → LotFits g k → OnLot 28 k v → in_bounds g v ≡ true
unfolding in_bounds
in_bounds-OnLot g k v f h =
    let fine : h.lots * 10 ^ k % g.finest ≡ 0 = whole_on_grid h.lots (10 ^ k) g.finest f.on_grid in
    let exact = round_to-exact 34 h.lots k (omega (arith, h.few)) in
    let few_below = mul-lt-mul_of_pos_right {k = 10 ^ k} h.few (one-le-pow k 10 (omega arith)) in
    let small : h.lots * 10 ^ k < 10 ^ 34 * g.coarsest = omega (arith, few_below, f.below) in
    rw h.is_whole (ground (arith, fine, exact, small))
