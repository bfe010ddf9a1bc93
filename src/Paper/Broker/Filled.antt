-- ===== src/Paper/Broker/Filled.antt =====
-- A fill that the matching builds passes its constructor's checks.
use tx_trader.Common.{ℕ, ◌≡◌, false, ◌==◌, is_none, differ}
use tx_trader.Paper.Contracts.{OrderSide}
use tx_trader.Paper.Policies.{SlippageAssessment, FeeAssessment, gap, is_favourable}
use tx_trader.Paper.Broker.State.{Broker}

-- What an accepted slippage has checked.
record IsAdverse (side : OrderSide) (reference : ℕ) (a : SlippageAssessment) : Type 0 where
  same_reference : a.reference_price ≡ reference
  reference_positive : (reference == 0) ≡ false
  price_positive : (a.execution_price == 0) ≡ false
  adverse : is_favourable side reference a.execution_price ≡ false
  amount : a.slippage_amount ≡ gap a.execution_price reference

-- A fee has a currency just when it is not zero.
abbrev IsCharged : FeeAssessment → Type 0
IsCharged a = differ (a.fee == 0) (is_none a.currency) ≡ false
