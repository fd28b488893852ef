-- ===== src/State.antt =====
-- src/state: the order books that the market data keeps current.
pub mod OrderBook
