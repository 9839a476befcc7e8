-- ===== src/Migration.antt =====
-- The migration subsystem, arena_hero_agent/migration.
pub mod StateMachine
pub mod Enactment
