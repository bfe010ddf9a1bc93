-- ===== src/Paper/Policies.antt =====
-- tx_trade/orders/execution_policies.py, with its configuration in contracts.py.
--
-- Prices, amounts and quanta are values on a grid on which the arithmetic of the 34-digit context
-- is Python's. A quantity is counted in units of which `lot` make 1. A fee is a count of the last digit of the
-- rule's quantum. What the trapping context finds exact is a parameter. Overflow is not modelled.
use tx_trader.Common.{
  ℕ, ◌+◌, ◌-◌, ◌*◌, ◌/◌, ◌%◌, ◌^◌, Bool, true, false, ◌&&◌, ◌||◌, not, Option, none, some, List, [],
  ◌∷◌, Outcome, ok, raise, ◌>>=◌, ◌>>◌, raise_if, ltb, leb, ◌==◌, if◌then◌else◌,
}
use tx_trader.Decimals.{Grid, quantum, round_to, add, sub, mul, div}
use tx_trader.Paper.Contracts.{OrderSide}
use tx_trader.Paper.Matching.{MatchSkipReason}

pub data SlippageMode : Type 0 where
  no_slippage basis_points absolute : SlippageMode

pub record SlippageConfig : Type 0 where
  pub mode : SlippageMode
  pub value : ℕ

pub data PolicyFault : Type 0 where
  invalid_input arithmetic_failure slippage_unrepresentable : PolicyFault
  fee_rule_missing fee_currency_missing fee_currency_mismatch : PolicyFault

-- The precision of the policies' contexts.
abbrev pub policy_prec : ℕ
policy_prec = 34

-- The second half of `SlippageConfig.__post_init__`: which values a mode takes.
unfoldable pub accepts_value : Grid → SlippageMode → ℕ → Bool
accepts_value g SlippageMode.no_slippage v = v == 0
accepts_value g SlippageMode.basis_points v = ltb 0 v && ltb v (10_000 * g.one)
accepts_value g SlippageMode.absolute v = ltb 0 v

abbrev pub is_adverse_mode : SlippageMode → Bool
is_adverse_mode SlippageMode.no_slippage = false
is_adverse_mode _ = true

pub record SlippageAssessment : Type 0 where
  pub reference_price : ℕ
  pub execution_price : ℕ
  pub slippage_amount : ℕ

-- `delta` of `assess_slippage`.
unfoldable pub slippage_delta : Grid → SlippageConfig → ℕ → ℕ
slippage_delta g c reference = elim c.mode [
  | SlippageMode.no_slippage ↦ 0
  | SlippageMode.basis_points ↦
      div g policy_prec (mul g policy_prec reference c.value) (10_000 * g.one)
  | SlippageMode.absolute ↦ round_to policy_prec c.value 1
]

-- `reference + delta`, or `reference - delta`; there is no price if that is negative.
unfoldable pub moved : OrderSide → ℕ → ℕ → Option ℕ
moved OrderSide.buy reference d = some (add policy_prec reference d)
moved OrderSide.sell reference d =
    if ltb reference d then none else some (sub policy_prec reference d)

-- `abs(execution - reference)`.
unfoldable pub gap : ℕ → ℕ → ℕ
gap a b = if leb b a then sub policy_prec a b else sub policy_prec b a

-- The price has moved to the wrong side.
unfoldable pub is_favourable : OrderSide → ℕ → ℕ → Bool
is_favourable OrderSide.buy reference execution = ltb execution reference
is_favourable OrderSide.sell reference execution = ltb reference execution

-- The checks after the arithmetic; all of them raise the same error.
unfoldable pub accept_slippage :
    SlippageMode → OrderSide → ℕ → ℕ → Option ℕ → Outcome PolicyFault SlippageAssessment
accept_slippage mode side reference d none = raise PolicyFault.slippage_unrepresentable
accept_slippage mode side reference d (some execution) = do
  raise_if (is_adverse_mode mode && (d == 0 || gap execution reference == 0))
      PolicyFault.slippage_unrepresentable
  raise_if (execution == 0) PolicyFault.slippage_unrepresentable
  raise_if (is_favourable side reference execution) PolicyFault.slippage_unrepresentable
  ok (record {
    reference_price = reference;
    execution_price = execution;
    slippage_amount = gap execution reference;
  })

unfoldable pub assess_slippage :
    Grid → ℕ → OrderSide → SlippageConfig → Outcome PolicyFault SlippageAssessment
assess_slippage g reference side c = do
  raise_if (reference == 0) PolicyFault.invalid_input
  accept_slippage c.mode side reference (slippage_delta g c reference)
      (moved side reference (slippage_delta g c reference))

unfoldable pub within_limit : OrderSide → ℕ → ℕ → Bool
within_limit OrderSide.buy execution limit = leb execution limit
within_limit OrderSide.sell execution limit = leb limit execution

-- `assess_limit`: the reason to skip the order, if there is one.
unfoldable pub assess_limit :
    ℕ → OrderSide → Option ℕ → Outcome PolicyFault (Option MatchSkipReason)
assess_limit execution side none = do raise_if (execution == 0) PolicyFault.invalid_input; ok none
assess_limit execution side (some limit) = do
  raise_if (execution == 0) PolicyFault.invalid_input
  raise_if (limit == 0) PolicyFault.invalid_input
  ok (
      if within_limit side execution limit
      then none
      else some MatchSkipReason.slippage_exceeds_limit)

-- `FeeRoundingMode` has one member, half up. The quantum's value is `quantum_digits` times the
-- weight `quantum_unit` of its last digit.
pub record PaperFeeRule : Type 0 where
  pub instrument_id : ℕ
  pub currency : ℕ
  pub amount_per_unit : ℕ
  pub quantum_digits : ℕ
  pub quantum_unit : ℕ

pub data PaperFeeSchedule : Type 0 where
  zero_fees : PaperFeeSchedule
  per_unit : List PaperFeeRule → PaperFeeSchedule

pub record FeeAssessment : Type 0 where
  pub fee : ℕ
  pub currency : Option ℕ

-- The exact value `n / d`, rounded half up to `prec` significant digits.
unfoldable pub half_up : ℕ → ℕ → ℕ → ℕ
half_up m r d = if ltb (2 * r) d then m else m + 1

unfoldable pub round_up_to : ℕ → ℕ → ℕ → ℕ
round_up_to prec n d =
    let q = quantum (n / d) (10 ^ prec) (n / d) in half_up (n / (d * q)) (n % (d * q)) (d * q) * q

-- How many quanta the fee for this quantity is, in units of which `lot` make 1: the product and the quotient are rounded half up to
-- 34 digits, and the quotient then to a whole number.
unfoldable pub fee_units : Grid → ℕ → PaperFeeRule → ℕ → ℕ
fee_units g lot r quantity =
    let amount = round_up_to policy_prec (r.amount_per_unit * quantity) lot in
    let quotient = round_up_to policy_prec (amount * g.one) (r.quantum_digits * r.quantum_unit) in
    half_up (quotient / g.one) (quotient % g.one) g.one

unfoldable pub find_rule : List PaperFeeRule → ℕ → Option PaperFeeRule
find_rule [] instrument = none
find_rule (r ∷ rules) instrument =
    if r.instrument_id == instrument then some r else find_rule rules instrument

-- Which products and differences the trapping context finds exact. It counts the digits of the
-- coefficients, and so goes by how a Decimal is written; here by the quantities before and after,
-- whose values do not show it.
pub record ExactContext : Type 0 where
  pub is_exact_product : PaperFeeRule → ℕ → Bool
  pub is_exact_difference : PaperFeeRule → ℕ → ℕ → Bool

-- `before` and `after`: the fee for a cumulative quantity, in the trapping context.
unfoldable pub cumulative_fee : Grid → ℕ → ExactContext → PaperFeeRule → ℕ → Outcome PolicyFault ℕ
cumulative_fee g lot e r quantity = do
  raise_if (not (e.is_exact_product r quantity)) PolicyFault.arithmetic_failure
  ok (fee_units g lot r quantity * r.quantum_digits)

-- The fee between two cumulative fees, those for `before` and `after`.
unfoldable pub fee_of_change :
    ExactContext
    → PaperFeeRule
    → (before after fee_before fee_after : ℕ) → Outcome PolicyFault FeeAssessment
fee_of_change e r before after fee_before fee_after = do
  raise_if (not (e.is_exact_difference r before after)) PolicyFault.arithmetic_failure
  raise_if (ltb fee_after fee_before) PolicyFault.arithmetic_failure
  let fee = fee_after - fee_before
  ok (record { fee = fee; currency = if fee == 0 then none else some r.currency })

unfoldable pub fee_between :
    Grid → ℕ → ExactContext → PaperFeeRule → ℕ → ℕ → Outcome PolicyFault FeeAssessment
fee_between g lot e r before after = do
  fee_before ← cumulative_fee g lot e r before
  fee_after ← cumulative_fee g lot e r after
  fee_of_change e r before after fee_before fee_after

unfoldable pub fee_by_rule :
    Grid
    → ℕ
    → ExactContext
    → Option PaperFeeRule
    → Option ℕ
    → ℕ
    → ℕ
    → Outcome PolicyFault FeeAssessment
fee_by_rule g lot e none currency before after = raise PolicyFault.fee_rule_missing
fee_by_rule g lot e (some r) none before after = raise PolicyFault.fee_currency_missing
fee_by_rule g lot e (some r) (some currency) before after = do
  raise_if (not (currency == r.currency)) PolicyFault.fee_currency_mismatch
  fee_between g lot e r before after

abbrev pub fee_by_schedule :
    Grid
    → ℕ
    → ExactContext
    → PaperFeeSchedule
    → ℕ
    → Option ℕ
    → ℕ
    → ℕ
    → Outcome PolicyFault FeeAssessment
fee_by_schedule g lot e PaperFeeSchedule.zero_fees instrument currency before after =
    ok (record { fee = 0; currency = none })
fee_by_schedule g lot e (PaperFeeSchedule.per_unit rules) instrument currency before after =
    fee_by_rule g lot e (find_rule rules instrument) currency before after

unfoldable pub assess_fee :
    Grid
    → ℕ
    → ExactContext
    → PaperFeeSchedule
    → ℕ
    → Option ℕ
    → ℕ
    → ℕ
    → Outcome PolicyFault FeeAssessment
assess_fee g lot e schedule instrument currency before after = do
  raise_if (leb after before) PolicyFault.invalid_input
  fee_by_schedule g lot e schedule instrument currency before after
