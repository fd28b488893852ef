-- ===== src/Strategy.antt =====
-- src/strategy: what strategies want, and how their intents reach the execution.
pub mod MarketPair
pub mod Traits
pub mod Router
pub mod EdgeCalculator
pub mod MathArb
pub mod Contrarian
