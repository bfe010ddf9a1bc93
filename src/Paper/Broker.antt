-- ===== src/Paper/Broker.antt =====
-- The paper broker: tx_trade/orders/paper_broker.py.
pub mod State
pub mod Names
pub mod Commands
pub mod Cancel
pub mod Batched
pub mod Batch
pub mod Fills
pub mod Matches
pub mod Results
pub mod Envelopes
pub mod Process
pub mod Queries
pub mod Changes
pub mod Allowed
pub mod Submitting
pub mod Cancelling
pub mod Batching
pub mod Filling
pub mod Processing
pub mod Journal
pub mod Owned
pub mod Separated
pub mod Snapshots
pub mod Memory
pub mod Kept
pub mod Retried
pub mod Fed
pub mod Redelivered
pub mod Filled
pub mod Sides
pub mod Liquidity
pub mod Room
pub mod CancelRoom
pub mod Limited
