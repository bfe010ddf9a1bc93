-- ===== src/Paper/Fees.antt =====
-- A cumulative fee does not depend on how a quantity is split into fills.
use tx_trader.Common.{ℕ, ◌+◌, ◌≡◌, Option, ok}
use tx_trader.Decimals.{Grid}
use tx_trader.Paper.Policies.{PaperFeeSchedule, FeeAssessment, ExactContext, assess_fee}

-- Fills one after the other, from one cumulative quantity to another, and the sum of their fees.
pub data Splits (g : Grid) (lot : ℕ) (e : ExactContext) (schedule : PaperFeeSchedule)
    (instrument : ℕ) (currency : Option ℕ) (x : ℕ) : ℕ → ℕ → Type 0 where
  one :
      {y : ℕ} (a : FeeAssessment)
      → assess_fee g lot e schedule instrument currency x y ≡ ok a
      → Splits g lot e schedule instrument currency x y a.fee
  more :
      {y z t : ℕ} (a : FeeAssessment)
      → Splits g lot e schedule instrument currency x y t
      → assess_fee g lot e schedule instrument currency y z ≡ ok a
      → Splits g lot e schedule instrument currency x z (t + a.fee)
