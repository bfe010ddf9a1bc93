-- ===== src/Market.antt =====
-- Market data: tx_trade/market_data.
pub mod Sequencer
pub mod Allocation
pub mod Ingress
mod Tests
