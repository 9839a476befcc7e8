-- ===== src/Strategies/MovementGuard/Deposit.antt =====
-- strategies/movement_guard.py: the record of the way home, and when it forces an escape.
use arena_hero_agent.Prelude.{ℕ, ◌+◌, ◌≤◌, ◌<◌, ◌≡◌, true, false, some, arith}
use arena_hero_agent.Prelude.Int.{pos}
use arena_hero_agent.Prelude.Exceptions.{ok}
use arena_hero_agent.Strategies.MovementGuard.Home.{
  DepositProgress, refreshed, refresh_deposit_progress, deposit_escape_needed,
}

-- However far the unit is now, the best distance on record is then at most two cells below it. Getting
-- nearer than ever rules out an escape for `stall` ticks; a unit that comes no nearer, and not more
-- than two cells farther, is to escape once `stall` ticks have passed since its record. Both
-- thresholds are positive.
pub refresh_lem :
    (state : DepositProgress) (distance tick later stall limit : ℕ)
    → 0 < stall
    → 0 < limit
    → (next : DepositProgress) × (refresh_deposit_progress (some state) (pos distance) (pos tick)
        ≡ ok next)
      × (next.best_manhattan ≤ distance)
      × (distance ≤ next.best_manhattan + 2)
      × (distance < state.best_manhattan
          → later < tick + stall
          → deposit_escape_needed next (pos later) (pos stall) (pos limit) ≡ ok false)
      × (state.best_manhattan ≤ distance
          → distance ≤ state.best_manhattan + 2
          → state.last_improve_tick + stall ≤ later
          → deposit_escape_needed next (pos later) (pos stall) (pos limit) ≡ ok true)
unfolding refresh_deposit_progress deposit_escape_needed
refresh_lem state distance tick later stall limit s l = (
  refreshed state distance tick,
  ground arith,
  ground arith,
  ground arith,
  (λ n h. ground arith),
  (λ n f h. ground arith),
)
