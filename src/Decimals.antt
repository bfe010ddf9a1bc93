-- ===== src/Decimals.antt =====
-- Python's `decimal` arithmetic, as the order code uses it, on amounts that are not negative.
--
-- A Decimal is modelled by its value, a whole number of grid units. A context of precision `p`
-- (28 is the default context's, 34 that of decimal128) rounds the exact result of an operation to
-- `p` significant digits, half to even. The grid is a parameter: on a grid that is finer than any
-- digit which an operation can produce, the functions below give Python's values.
pub mod Exact
pub mod Bounds
use tx_trader.Common.{
  ℕ, zero, suc, ◌+◌, ◌-◌, ◌*◌, ◌/◌, ◌%◌, ◌^◌, Bool, ◌&&◌, ltb, ◌==◌, if◌then◌else◌,
}

-- `one` is the number 1 in units; `finest` is 10^-6143 and `coarsest` is 10^6144.
pub record Grid : Type 0 where
  pub one : ℕ
  pub finest : ℕ
  pub coarsest : ℕ

-- The weight of the last digit kept when a value whose whole part is `x` is cut to the digits
-- below `limit`. Each round drops one digit of `x`, so `x` itself is fuel enough.
unfoldable pub quantum : ℕ → ℕ → ℕ → ℕ
quantum zero limit x = 1
quantum (suc f) limit x =
    let rest = quantum f limit (x / 10) in if ltb x limit then 1 else 10 * rest

-- `m` or `m + 1` for the exact quotient `m + r / d`: half to even.
unfoldable pub half_even : ℕ → ℕ → ℕ → ℕ
half_even m r d = if ltb (2 * r) d then m else if 2 * r == d then m + m % 2 else m + 1

-- The exact value `n / d`, rounded to a multiple of `q`.
unfoldable pub round_at : ℕ → ℕ → ℕ → ℕ
round_at n d q = half_even (n / (d * q)) (n % (d * q)) (d * q) * q

-- The exact value `n / d`, rounded to `prec` significant digits.
unfoldable pub round_to : ℕ → ℕ → ℕ → ℕ
round_to prec n d = round_at n d (quantum (n / d) (10 ^ prec) (n / d))

unfoldable pub add : ℕ → ℕ → ℕ → ℕ
add prec a b = round_to prec (a + b) 1

-- `a - b` where `b ≤ a`.
unfoldable pub sub : ℕ → ℕ → ℕ → ℕ
sub prec a b = round_to prec (a - b) 1

unfoldable pub mul : Grid → ℕ → ℕ → ℕ → ℕ
mul g prec a b = round_to prec (a * b) g.one

unfoldable pub div : Grid → ℕ → ℕ → ℕ → ℕ
div g prec a b = round_to prec (a * g.one) b

-- At most 34 significant digits, with an exponent from -6143 to 6144.
unfoldable pub in_bounds : Grid → ℕ → Bool
in_bounds g v = v % g.finest == 0 && round_to 34 v 1 == v && ltb v (10 ^ 34 * g.coarsest)

-- The precision of Python's default context.
abbrev pub default_prec : ℕ
default_prec = 28
