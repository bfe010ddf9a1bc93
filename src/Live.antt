-- ===== src/Live.antt =====
-- The live-order core: tx_trade/orders/live_contracts.py and live_state_machine.py.
pub mod Contracts
pub mod Events
pub mod Order
pub mod Local
pub mod Ledger
pub mod Reduce
pub mod Valid
pub mod Creation
pub mod History
pub mod Final
pub mod Redelivery
mod Tests
