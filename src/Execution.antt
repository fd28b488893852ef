-- ===== src/Execution.antt =====
-- src/execution: the orders that are out at the exchange, and the checks of the ledger.
pub mod OrderTracker
pub mod StateMachine
pub mod Policy
pub mod Executor
pub mod Cancellation
