-- ===== src/Cache.antt =====
-- The package internal/runtime/cache.
pub mod Duration
pub mod Control
pub mod Ttl
pub mod Entry
pub mod Memory
pub mod Decision
pub mod Descriptor
