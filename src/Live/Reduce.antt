-- ===== src/Live/Reduce.antt =====
-- tx_trade/orders/live_state_machine.py: the reducers of dispatch receipts and broker events.
--
-- `digest` stands for SHA-256 over the canonical form of the evidence (hashlib and json).
pub mod Transition
pub mod Shared
pub mod Dispatch
pub mod OrderEvent
pub mod FillEvent
pub mod DispatchValid
pub mod TransitionFits
pub mod WorkingChangeFits
pub mod TransitionValid
pub mod OrderEventValid
pub mod FillFits
pub mod FillEventValid
pub mod Safety
pub mod Transport
