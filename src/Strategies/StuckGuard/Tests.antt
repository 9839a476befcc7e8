-- ===== src/Strategies/StuckGuard/Tests.antt =====
-- Runs of the stuck guard, and the theorem at concrete positions.
use arena_hero_agent.Prelude.{ℕ, ◌≡◌, ◌↔◌, refl, true, [], ◌∷◌, All}
use arena_hero_agent.Prelude.Int.{ℤ, pos, negsuc, ◌-ℤ◌}
use arena_hero_agent.Prelude.Exceptions.{ok, raise, value_error}
use arena_hero_agent.Domain.ValueObjects.{Coordinate, eq_coordinate}
use arena_hero_agent.Strategies.StuckGuard.{
  all_equal, positions_stuck, stuck_units, detect_stuck_unit_ids,
}
use arena_hero_agent.Strategies.StuckGuard.Box.{Within, positions_stuck_lem}

abbrev at_x : ℕ → Coordinate
at_x n = record { x = pos n; y = negsuc 1 }

-- The first unit stays in its box, the second leaves it, the third has too few positions.
one_stuck :
    detect_stuck_unit_ids
      (("a", at_x 9 ∷ at_x 1 ∷ at_x 3 ∷ at_x 2 ∷ [])
        ∷ ("b", at_x 1 ∷ at_x 2 ∷ at_x 4 ∷ [])
        ∷ ("c", at_x 1 ∷ at_x 1 ∷ [])
        ∷ [])
      (pos 3)
      (pos 2)
    ≡ ok ("a" ∷ [])
unfolding detect_stuck_unit_ids stuck_units positions_stuck all_equal eq_coordinate ◌-ℤ◌
one_stuck = refl

no_ticks : detect_stuck_unit_ids [] (pos 0) (pos 2) ≡ raise value_error
unfolding detect_stuck_unit_ids
no_ticks = refl

positions_stuck_lem_example : (positions_stuck (at_x 1 ∷ at_x 3 ∷ at_x 2 ∷ []) 2 ≡ true) ↔ (
    ((x : ℤ) × All (Within (λ c. c.x) x 2) (at_x 1 ∷ at_x 3 ∷ at_x 2 ∷ []))
    × ((y : ℤ) × All (Within (λ c. c.y) y 2) (at_x 1 ∷ at_x 3 ∷ at_x 2 ∷ [])))
positions_stuck_lem_example = positions_stuck_lem 2 (at_x 1) (at_x 3 ∷ at_x 2 ∷ [])
