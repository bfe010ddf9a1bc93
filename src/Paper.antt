-- ===== src/Paper.antt =====
-- Paper orders: tx_trade/orders/contracts.py and state_machine.py.
pub mod Contracts
pub mod Transition
pub mod Followed
pub mod Progress
pub mod Position
pub mod Booking
pub mod Conservation
pub mod Matching
pub mod Execution
mod Tests
pub mod Events
pub mod Equality
pub mod Policies
pub mod Charges
pub mod Fees
pub mod Broker
