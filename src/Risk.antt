-- ===== src/Risk.antt =====
-- src/risk: the guards between the strategies and the exchange.
pub mod CircuitBreaker
pub mod RateLimiter
pub mod Limits
pub mod Reconciliation
