-- ===== src/Live/Valid.antt =====
-- The invariant of a live order, and that an order which has it passes `LiveOrder.__post_init__`.
use mathlib.Core.Path.{subst}
use tx_trader.Common.{
  sym, ◌∙◌, ℕ, ◌+◌, ◌≤◌, ◌<◌, ◌≡◌, refl, false, Option, none, some, ok, arith, ◌==◌, is_none,
  Outcome,
}
use tx_trader.Decimals.{Grid, add, default_prec}
use tx_trader.Decimals.Exact.{OnLot, add-OnLot}
use tx_trader.Decimals.Bounds.{LotFits, in_bounds-OnLot}
use tx_trader.Live.Contracts.{
  Fault, PendingCommandBinding, is_terminal, check_amount, check_positive, check_optional,
  check_price, check_command,
}
use tx_trader.Live.Order.{
  LiveOrder, check_amounts, check_quantities, check_times, check_pending, check_binding_state,
  check_progress, post_init,
}

-- The bound command is one that its own constructor accepts.
abbrev pub check_bound : Grid → Option PendingCommandBinding → Outcome Fault (Unit {0})
check_bound g none = ok tt
check_bound g (some b) = check_command g b.command

-- Every quantity lies on the lot `10 ^ k` of the grid.
pub record IsValid (g : Grid) (k : ℕ) (o : LiveOrder) : Type 0 where
  pub total_on : OnLot default_prec k o.total_quantity
  pub filled_on : OnLot default_prec k o.filled_quantity
  pub remaining_on : OnLot default_prec k o.remaining_quantity
  pub total_pos : 0 < o.total_quantity
  pub parts : o.filled_quantity + o.remaining_quantity ≡ o.total_quantity
  pub within : o.total_quantity ≤ o.intent.quantity
  pub average_good : check_optional g o.average_fill_price ≡ ok tt
  pub limit_good : check_optional g o.working_limit_price ≡ ok tt
  pub priced : check_price o.intent.order_type o.working_limit_price ≡ ok tt
  pub averaged : (o.filled_quantity == 0) ≡ is_none o.average_fill_price
  pub versioned : 0 < o.version
  pub timed : check_times o.state o.accepted_at o.updated_at ≡ ok tt
  pub targeted : check_pending o.intent o.updated_at o.pending_command ≡ ok tt
  pub bound_good : check_bound g o.pending_command ≡ ok tt
  pub bound_fits : check_binding_state o.state o.pending_command ≡ ok tt
  pub progressed :
      check_progress o.state o.total_quantity o.filled_quantity o.remaining_quantity ≡ ok tt
  pub rest_open : is_terminal o.state ≡ false → 0 < o.remaining_quantity

check_amount-OnLot :
    (g : Grid) (k v : ℕ) → LotFits g k → OnLot default_prec k v → check_amount g v ≡ ok tt
unfolding check_amount
check_amount-OnLot g k v f h = rw (in_bounds-OnLot g k v f h)

check_positive-OnLot :
    (g : Grid) (k v : ℕ) → LotFits g k → OnLot default_prec k v → 0 < v → check_positive g v ≡ ok tt
unfolding check_positive check_amount
check_positive-OnLot g k v f h p = rw (in_bounds-OnLot g k v f h) (ground arith)

check_amounts-IsValid :
    (g : Grid) (k : ℕ) (o : LiveOrder) → LotFits g k → IsValid g k o → check_amounts g o ≡ ok tt
unfolding check_amounts
check_amounts-IsValid g k o f v =
    rw (check_positive-OnLot g k o.total_quantity f v.total_on v.total_pos) (
      rw (check_amount-OnLot g k o.filled_quantity f v.filled_on) (
        rw (check_amount-OnLot g k o.remaining_quantity f v.remaining_on)
          (rw v.average_good v.limit_good)))

-- The sum that the check makes is exact.
parts_exact :
    (g : Grid) (k : ℕ) (o : LiveOrder)
    → IsValid g k o
    → add default_prec o.filled_quantity o.remaining_quantity ≡ o.total_quantity
parts_exact g k o v =
    add-OnLot default_prec k o.filled_quantity o.remaining_quantity
      (subst (OnLot default_prec k) (sym v.parts) v.total_on)
    ∙ v.parts

check_quantities-IsValid :
    (g : Grid) (k : ℕ) (o : LiveOrder) → IsValid g k o → check_quantities o ≡ ok tt
unfolding check_quantities
check_quantities-IsValid g k o v =
    ground (arith, parts_exact g k o v, v.within, v.averaged, v.versioned)

-- An order that has the invariant can be built.
pub post_init-IsValid :
    (g : Grid) (k : ℕ) (o : LiveOrder) → LotFits g k → IsValid g k o → post_init g o ≡ ok o
unfolding post_init
post_init-IsValid g k o f v = rw (check_amounts-IsValid g k o f v) (
    rw v.priced (
      rw (check_quantities-IsValid g k o v)
        (rw v.timed (rw v.targeted (rw v.bound_fits (rw v.progressed))))))

pub check_positive-pos : (g : Grid) (v : ℕ) → check_positive g v ≡ ok tt → 0 < v
unfolding check_positive
check_positive-pos g v h = ground arith

pub check_optional-none : (g : Grid) → check_optional g none ≡ ok tt
unfolding check_optional
check_optional-none g = refl

pub check_optional-some :
    (g : Grid) (v : ℕ) → check_positive g v ≡ ok tt → check_optional g (some v) ≡ ok tt
unfolding check_optional
check_optional-some g v h = h
