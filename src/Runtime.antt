-- ===== src/Runtime.antt =====
-- The offline runtime adapters, arena_hero_agent/adapters/runtime.
pub mod Leases
pub mod StateStore
pub mod Journal
