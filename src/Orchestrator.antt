-- ===== src/Orchestrator.antt =====
-- src/orchestrator: what the bot does with the intents of its strategies.
pub mod Intents
