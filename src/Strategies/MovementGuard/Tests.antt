-- ===== src/Strategies/MovementGuard/Tests.antt =====
-- Runs of the guards, and the theorems at concrete inputs.
use arena_hero_agent.Prelude.{ℕ, ◌≡◌, refl, true, false, some, none, List, [], ◌∷◌, ◌++◌, arith}
use arena_hero_agent.Prelude.Int.{pos, negsuc, ◌+ℤ◌, ◌-ℤ◌, ◌*ℤ◌}
use arena_hero_agent.Prelude.Exceptions.{ok, raise, value_error}
use arena_hero_agent.Domain.ValueObjects.{
  Coordinate, coordinate, step, eq_coordinate, north, south, coordinate_max,
}
use arena_hero_agent.Domain.Navigation.{mem_cell, manhattan}
use arena_hero_agent.Strategies.MovementGuard.{
  LoopTrail, mark_loop_repath, detect_spatial_loop, distinct_cells, footprint_diameter,
}
use arena_hero_agent.Strategies.MovementGuard.Home.{
  DepositProgress, primary_direction, preferred, choose_step, forced_escape_step,
}
use arena_hero_agent.Strategies.MovementGuard.Trail.{observe_all, quiet_after_repath}
use arena_hero_agent.Strategies.MovementGuard.Escape.{IsEscape, forced_escape_step_lem}

abbrev cell : ℕ → Coordinate
cell n = record { x = pos n; y = pos 0 }

abbrev trail : LoopTrail
trail = record {
  history = cell 1 ∷ cell 2 ∷ [];
  static_ticks = 1;
  last_pos = some (cell 2);
  cooldown = 0;
  repath_side = pos 0;
  last_repath_tick = negsuc 0;
}

abbrev seen : List Coordinate
seen = cell 1 ∷ cell 2 ∷ []

quiet_after_repath_example :
    (marked : LoopTrail) × (next : LoopTrail) × (mark_loop_repath trail (pos 9) (pos 5) ≡ ok marked)
    × (observe_all 3 marked seen ≡ ok next)
    × (detect_spatial_loop next none (pos 3) (pos 4) (pos 3) (pos 4) ≡ ok false)
    × (next.repath_side ≡ pos 1 -ℤ trail.repath_side)
quiet_after_repath_example =
    quiet_after_repath 3 (omega arith) trail 9 5 seen none 4 3 4 (omega arith) (omega arith)
      (omega arith) (omega arith)

circling :
    detect_spatial_loop
      (record trail { history = trail.history ++ seen })
      none
      (pos 4)
      (pos 4)
      (pos 3)
      (pos 4)
    ≡ ok true
unfolding detect_spatial_loop distinct_cells footprint_diameter mem_cell eq_coordinate ◌+ℤ◌ ◌-ℤ◌
circling = refl

abbrev progress : DepositProgress
progress = record { best_manhattan = 6; last_improve_tick = 10; repath_streak = 1 }

abbrev obstacles : List Coordinate
obstacles = cell 2 ∷ []

side_step : forced_escape_step (cell 1) (cell 5) obstacles true ≡ ok (some south)
unfolding forced_escape_step primary_direction preferred choose_step step coordinate mem_cell
    eq_coordinate manhattan ◌+ℤ◌ ◌-ℤ◌ ◌*ℤ◌
side_step = refl

-- At the edge of the range the step to the other side raises, though three steps are free.
edge_raises :
    forced_escape_step (record { x = coordinate_max; y = pos 0 }) (cell 5) [] true
    ≡ raise value_error
unfolding forced_escape_step primary_direction preferred choose_step step coordinate mem_cell
    eq_coordinate manhattan ◌+ℤ◌ ◌-ℤ◌ ◌*ℤ◌
edge_raises = refl

forced_escape_step_lem_example :
    IsEscape (cell 1) (cell 5) obstacles (south ∷ north ∷ []) (some south)
unfolding primary_direction ◌-ℤ◌
forced_escape_step_lem_example =
    forced_escape_step_lem (cell 1) (cell 5) obstacles true (λ e. cc) side_step
