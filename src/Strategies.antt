-- ===== src/Strategies.antt =====
-- strategies: raid_quota.py, movement_guard.py, economy_budget.py and stuck_guard.py of the strategies.
pub mod RaidQuota
pub mod MovementGuard
pub mod EconomyBudget
pub mod StuckGuard
