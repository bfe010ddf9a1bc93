-- ===== src/Live/Creation.antt =====
-- When `create_live_order` goes through, for an intent that its own constructor accepts.
use native.Mathlib.Nat.{zero-add, zero-mod, one-le-pow}
use tx_trader.Common.{
  if◌then◌else◌, ℕ, ◌*◌, ◌^◌, ◌<◌, ◌≡◌, ok, raise, arith, >>-eq_ok, raise_if, not, ◌==◌,
}
use tx_trader.Decimals.{Grid, in_bounds, round_to, add, default_prec}
use tx_trader.Decimals.Exact.{round_to-exact}
use tx_trader.Live.Contracts.{
  LiveOrderIntent, Fault, check_intent, check_amount, check_positive, check_optional, check_price,
}
use tx_trader.Live.Order.{
  check_amounts, check_quantities, check_times, check_pending, check_binding_state, check_progress,
  post_init,
}
use tx_trader.Live.Local.{fresh, create_live_order}
use tx_trader.Live.Valid.{check_optional-none}

-- What the intent's constructor has checked.
intent_facts :
    (g : Grid) (i : LiveOrderIntent)
    → check_intent g i ≡ ok tt
    → (check_positive g i.quantity ≡ ok tt)
      × (check_optional g i.limit_price ≡ ok tt)
      × (check_price i.order_type i.limit_price ≡ ok tt)
unfolding check_intent
intent_facts g i h =
    let (quantity, rest) = >>-eq_ok (check_positive g i.quantity) _ h in
    let (limit, price) = >>-eq_ok (check_optional g i.limit_price) _ rest in
    (quantity, limit, price)

check_positive-bound : (g : Grid) (v : ℕ) → check_positive g v ≡ ok tt → v < 10 ^ 34 * g.coarsest
unfolding check_positive check_amount in_bounds
check_positive-bound g v h = ground arith

check_positive-amount : (g : Grid) (v : ℕ) → check_positive g v ≡ ok tt → check_amount g v ≡ ok tt
unfolding check_positive
check_positive-amount g v h = ground arith

round_zero : (p : ℕ) → round_to p 0 1 ≡ 0
round_zero p = round_to-exact p 0 0 (one-le-pow p 10 (omega arith))

zero_amount : (g : Grid) (v : ℕ) → v < 10 ^ 34 * g.coarsest → check_amount g 0 ≡ ok tt
unfolding check_amount in_bounds
zero_amount g v h =
    let zero_exact : round_to 34 0 1 ≡ 0 = round_zero 34 in
    ground (arith, zero-mod g.finest, zero_exact)

-- Rounding the quantity to the context's precision changes nothing: the order's sum is checked in
-- the default context.
fresh_sum :
    (i : LiveOrderIntent)
    → check_quantities (fresh i)
      ≡ raise_if (not (round_to default_prec i.quantity 1 == i.quantity)) Fault.parts_differ
unfolding check_quantities add
fresh_sum i = rw (zero-add i.quantity) (ground arith)

-- For an intent that its constructor accepts, `create_live_order` returns the fresh order exactly
-- when the quantity has no more significant digits than the default context keeps; otherwise it
-- raises that the parts differ from the total.
pub create_live_order-by_digits :
    (g : Grid) (i : LiveOrderIntent)
    → check_intent g i ≡ ok tt
    → create_live_order g i ≡ (
        if round_to default_prec i.quantity 1 == i.quantity
        then ok (fresh i)
        else raise Fault.parts_differ)
unfolding create_live_order post_init check_amounts check_times check_pending check_binding_state
    check_progress
create_live_order-by_digits g i c =
    let (quantity, limit, price) = intent_facts g i c in
    let bound = check_positive-bound g i.quantity quantity in
    rw quantity (
      rw (zero_amount g i.quantity bound) (
        rw (check_positive-amount g i.quantity quantity)
          (rw (check_optional-none g) (rw limit (rw price (rw (fresh_sum i) (ground arith)))))))
