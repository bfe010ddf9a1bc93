-- ===== src/Decimals/Exact.antt =====
-- When the arithmetic is exact: values that lie on one lot of a power of ten, with no more
-- digits above it than the context keeps.
use native.Mathlib.Nat.{
  mul_comm, mul_assoc, pow-suc, mul-one, one-mul, div-one, mul-div_cancel, mul-div_cancel_left,
  mul-mod_right, zero-mul, pow-zero, one-le-pow, mul-sub, le_of_mul-le-mul_right,
}
use tx_trader.Common.{
  ℕ, zero, suc, ◌+◌, ◌-◌, ◌*◌, ◌/◌, ◌^◌, ◌≤◌, ◌<◌, ◌≡◌, sym, inl, inr, arith, ltb, Bool-cases,
}
use tx_trader.Decimals.{quantum, half_even, round_at, round_to, add, sub}

drop_zero : (m k : ℕ) → m * 10 ^ suc k / 10 ≡ m * 10 ^ k
drop_zero m k =
    rw (pow-suc 10 k) (rw (← mul_assoc m (10 ^ k) 10) (mul-div_cancel (m * 10 ^ k) (omega arith)))

-- Cutting `m * 10 ^ k` to the digits below `limit` drops none of the digits of `m`.
quantum-divides :
    (f limit m k : ℕ) → m < limit → (c : ℕ) × (quantum f limit (m * 10 ^ k) * c ≡ 10 ^ k)
unfolding quantum
quantum-divides zero limit m k h = (10 ^ k, one-mul _)
quantum-divides (suc f) limit m zero h = (1, ground (arith, mul-one m, pow-zero 10))
quantum-divides (suc f) limit m (suc k) h = elim (Bool-cases (ltb (m * 10 ^ suc k) limit)) [
  | inl small ↦ (10 ^ suc k, rw small (one-mul _))
  | inr big ↦
      let (c, e) = quantum-divides f limit m k h in
      (
        c,
        rw (big, drop_zero m k)
            (rw (mul_assoc 10 _ c) (rw e (rw (pow-suc 10 k) (mul_comm 10 (10 ^ k))))),
      )
]

pow_pos : (k : ℕ) → 0 < 10 ^ k
pow_pos k = one-le-pow k 10 (omega arith)

-- A value that is a whole number of kept digits is not changed.
half_even-exact : (m d : ℕ) → 0 < d → half_even m 0 d ≡ m
unfolding half_even
half_even-exact m d h = ground arith

round_at_whole : (c q : ℕ) → 0 < q → round_at (q * c) 1 q ≡ q * c
unfolding round_at
round_at_whole c q h = rw (one-mul q) (
    rw (mul-div_cancel_left c h)
      (rw (mul-mod_right q c) (rw (half_even-exact c q h) (mul_comm c q))))

pos_of_mul : (a b c : ℕ) → a * b ≡ c → 0 < c → 0 < a
pos_of_mul zero b c e h = absurd (omega (arith, zero-mul b))
pos_of_mul (suc a) b c e h = omega arith

round_at_divides : (n c q : ℕ) → 0 < q → n ≡ q * c → round_at n 1 q ≡ n
round_at_divides n c q h e = rw e (round_at_whole c q h)

-- Rounding to `prec` digits does not change a value with no more than `prec` digits above a lot.
pub round_to-exact : (prec m k : ℕ) → m < 10 ^ prec → round_to prec (m * 10 ^ k) 1 ≡ m * 10 ^ k
unfolding round_to
round_to-exact prec m k h =
    let n = m * 10 ^ k in
    let q = quantum n (10 ^ prec) n in
    let (c, e) = quantum-divides n (10 ^ prec) m k h in
    let whole : n ≡ q * (c * m) = rw (← mul_assoc q c m) (rw e (mul_comm m (10 ^ k))) in
    rw (div-one n) (round_at_divides n (c * m) q (pos_of_mul q c (10 ^ k) e (pow_pos k)) whole)

-- A value of at most `prec` digits above the lot `10 ^ k`.
pub record OnLot (prec k v : ℕ) : Type 0 where
  pub lots : ℕ
  pub is_whole : v ≡ lots * 10 ^ k
  pub few : lots < 10 ^ prec

pub round_to-OnLot : (prec k v : ℕ) → OnLot prec k v → round_to prec v 1 ≡ v
round_to-OnLot prec k v h = rw h.is_whole (round_to-exact prec h.lots k h.few)

lots_le : (a c k : ℕ) → a * 10 ^ k ≤ c * 10 ^ k → a ≤ c
lots_le a c k h = le_of_mul-le-mul_right h (pow_pos k)

-- Amounts on one lot add up on it, as long as the sum does not pass an amount on the lot.
pub OnLot-add :
    (prec k a b c : ℕ)
    → OnLot prec k a
    → OnLot prec k b
    → OnLot prec k c
    → a + b ≤ c
    → OnLot prec k (a + b)
OnLot-add prec k a b c ha hb hc h =
    let whole : a + b ≡ (ha.lots + hb.lots) * 10 ^ k = omega (arith, ha.is_whole, hb.is_whole) in
    let bound : ha.lots + hb.lots ≤ hc.lots =
      lots_le _ hc.lots k (omega (arith, ha.is_whole, hb.is_whole, hc.is_whole)) in
    record { lots = ha.lots + hb.lots; is_whole = whole; few = omega (arith, hc.few) }

sub_times : (a b c : ℕ) → (a - b) * c ≡ a * c - b * c
sub_times a b c =
    rw (mul_comm (a - b) c) (rw (mul-sub c a b) (rw (mul_comm c a) (rw (mul_comm c b))))

-- What is left of an amount on a lot, when an amount on it is taken away.
pub OnLot-sub : (prec k a b : ℕ) → OnLot prec k a → OnLot prec k b → OnLot prec k (a - b)
OnLot-sub prec k a b ha hb = record {
  lots = ha.lots - hb.lots;
  is_whole = rw (ha.is_whole, hb.is_whole) (sym (sub_times ha.lots hb.lots (10 ^ k)));
  few = omega (arith, ha.few);
}

-- Such sums are exact.
pub add-OnLot : (prec k a b : ℕ) → OnLot prec k (a + b) → add prec a b ≡ a + b
unfolding add
add-OnLot prec k a b h = round_to-OnLot prec k (a + b) h

pub OnLot-zero : (prec k : ℕ) → OnLot prec k 0
OnLot-zero prec k = record { lots = 0; is_whole = sym (zero-mul (10 ^ k)); few = pow_pos prec }

pub sub-OnLot : (prec k a b : ℕ) → OnLot prec k a → OnLot prec k b → sub prec a b ≡ a - b
unfolding sub
sub-OnLot prec k a b ha hb = round_to-OnLot prec k (a - b) (OnLot-sub prec k a b ha hb)
