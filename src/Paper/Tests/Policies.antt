-- ===== src/Paper/Tests/Policies.antt =====
-- Three units charged in two fills.
use tx_trader.Common.{ltb, ◌≡◌, refl, some, ok, [], ◌∷◌}
use tx_trader.Decimals.{Grid, quantum}
use tx_trader.Paper.Policies.{
  PaperFeeSchedule, FeeAssessment, half_up, round_up_to, fee_units, find_rule, fee_between,
  fee_by_rule, assess_fee, ExactContext, cumulative_fee, fee_of_change,
}

-- Amounts in thousandths: 1.255 a unit, in steps of 0.01.
abbrev thousandths : Grid
thousandths = record { one = 1_000; finest = 1; coarsest = 1_000 }

abbrev exact_context : ExactContext
exact_context = record {
  is_exact_product = λ r quantity. ltb quantity 10;
  is_exact_difference = λ r before after. ltb after 10;
}

abbrev schedule : PaperFeeSchedule
schedule = PaperFeeSchedule.per_unit (
    record {
      instrument_id = 4;
      currency = 1;
      amount_per_unit = 1_255;
      quantum_digits = 1;
      quantum_unit = 10;
    }
    ∷ [])

first_fee :
    (a : FeeAssessment) × (assess_fee thousandths 1 exact_context schedule 4 (some 1) 0 1 ≡ ok a)
unfolding assess_fee fee_by_rule find_rule fee_between cumulative_fee fee_of_change fee_units
    round_up_to half_up quantum
first_fee = (_, refl)

second_fee :
    (a : FeeAssessment) × (assess_fee thousandths 1 exact_context schedule 4 (some 1) 1 3 ≡ ok a)
unfolding assess_fee fee_by_rule find_rule fee_between cumulative_fee fee_of_change fee_units
    round_up_to half_up quantum
second_fee = (_, refl)

-- 1.255 is charged as 1.26, and 3.765 as 3.77.
fees_charged : ((first_fee.0).fee ≡ 126) × ((second_fee.0).fee ≡ 251)
unfolding first_fee second_fee
fees_charged = (refl, refl)
