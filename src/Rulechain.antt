-- ===== src/Rulechain.antt =====
-- The package internal/runtime/rulechain.
pub mod Types
pub mod Auth
pub mod Backend
pub mod Definitions
pub mod Agent
