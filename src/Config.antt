-- ===== src/Config.antt =====
-- The package internal/config.
pub mod Types
pub mod Loader
pub mod Constraints
pub mod Validation
