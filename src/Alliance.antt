-- ===== src/Alliance.antt =====
-- The alliance layer, arena_hero_agent/alliance.
pub mod Commands
pub mod Applier
pub mod CommandBus
pub mod TaskMarket
