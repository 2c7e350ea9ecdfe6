-- ===== src/Pipeline.antt =====
-- The package internal/runtime/pipeline.
pub mod State
