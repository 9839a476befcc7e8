-- ===== src/Domain.antt =====
-- The pure domain layer, arena_hero_agent/domain.
pub mod ValueObjects
pub mod Navigation
pub mod Rules
pub mod Economy
pub mod World
pub mod TenantState
