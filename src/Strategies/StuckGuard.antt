-- ===== src/Strategies/StuckGuard.antt =====
-- strategies/stuck_guard.py: the workers whose last positions do not leave a small box. The mapping of
-- positions is a list of units with their positions, the set that is returned a list of units.
mod Box
mod Tests
use arena_hero_agent.Prelude.{
  ℕ, ◌-◌, Bool, true, false, ◌&&◌, ◌||◌, not, String, List, [], ◌∷◌, length, ltb, if◌then◌else◌,
}
use arena_hero_agent.Prelude.Int.{ℤ, pos, ◌-ℤ◌, leb_ℤ}
use arena_hero_agent.Prelude.Exceptions.{Result, ok, ◌>>=◌}
use arena_hero_agent.Prelude.Dict.{Dict}
use arena_hero_agent.Domain.ValueObjects.{Coordinate, eq_coordinate}
use arena_hero_agent.Strategies.MovementGuard.{max_by, min_by, last_cells, positive_int}

-- `all(position == first for position in positions)`
unfoldable all_equal : Coordinate → List Coordinate → Bool
all_equal first [] = true
all_equal first (p ∷ positions) = eq_coordinate p first && all_equal first positions

unfoldable positions_stuck : List Coordinate → (k_cells : ℕ) → Bool
positions_stuck [] k_cells = false
positions_stuck (first ∷ positions) k_cells =
    if all_equal first (first ∷ positions)
    then true
    else leb_ℤ (max_by (λ c. c.x) first positions -ℤ min_by (λ c. c.x) first positions)
        (pos k_cells)
      && leb_ℤ (max_by (λ c. c.y) first positions -ℤ min_by (λ c. c.y) first positions)
          (pos k_cells)

-- The loop over the units, for checked arguments.
unfoldable stuck_units : (n_ticks k_cells : ℕ) → Dict (List Coordinate) → List String
stuck_units n_ticks k_cells [] = []
stuck_units n_ticks k_cells ((unit_id, positions) ∷ positions_by_unit) =
    let stuck = stuck_units n_ticks k_cells positions_by_unit in
    let recent = last_cells n_ticks positions in
    if not (ltb (length recent) n_ticks) && positions_stuck recent k_cells
    then unit_id ∷ stuck
    else stuck

unfoldable detect_stuck_unit_ids :
    Dict (List Coordinate) → (n_ticks k_cells : ℤ) → Result (List String)
detect_stuck_unit_ids positions_by_unit n_ticks k_cells = do
  ticks ← positive_int n_ticks
  cells ← positive_int k_cells
  ok (stuck_units ticks cells positions_by_unit)
