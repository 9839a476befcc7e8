-- ===== src/Strategies/EconomyBudget/Dispersal.antt =====
-- strategies/economy_budget.py: `full_capacity_worker_route`, with the staging points around the Core.
use Prim.Native.Nat.{◌%◌}
use arena_hero_agent.Prelude.{
  ℕ, zero, suc, ◌+◌, true, false, ◌||◌, Option, none, some, List, [], ◌∷◌, ◌++◌, leb, get_or,
  if◌then◌else◌,
}
use arena_hero_agent.Prelude.Int.{ℤ, pos, negsuc, ◌+ℤ◌}
use arena_hero_agent.Prelude.Exceptions.{Result, ok, ◌>>=◌}
use arena_hero_agent.Domain.ValueObjects.{Coordinate, coordinate, eq_coordinate}
use arena_hero_agent.Domain.Navigation.{mem_cell}
use arena_hero_agent.Strategies.EconomyBudget.{Occupancy, first_step_toward, vacate_core_step}

pub record FullCapacityRoute : Type 0 where
  pub next_step : Option Coordinate
  pub staging_goal : Coordinate

-- `HOME_PATROL_OFFSETS[index % len(HOME_PATROL_OFFSETS)]`
abbrev pub patrol_offset : ℕ → ℤ × ℤ
patrol_offset index =
    get_or
      ((pos 3, pos 0)
        ∷ (pos 3, pos 3)
        ∷ (pos 0, pos 3)
        ∷ (negsuc 2, pos 3)
        ∷ (negsuc 2, pos 0)
        ∷ (negsuc 2, negsuc 2)
        ∷ (pos 0, negsuc 2)
        ∷ (pos 3, negsuc 2)
        ∷ [])
      (index % 8) (pos 3, pos 0)

-- `_add`
abbrev pub add : Coordinate → ℤ × ℤ → Result Coordinate
add origin (dx, dy) = coordinate (origin.x +ℤ dx) (origin.y +ℤ dy)

-- `cell for cell, count in counts.items() if count >= cell_capacity`
unfoldable pub full_cells : (cell_capacity : ℕ) → Occupancy → List Coordinate
full_cells cell_capacity [] = []
full_cells cell_capacity ((cell, count) ∷ occupancy) =
    let rest = full_cells cell_capacity occupancy in
    if leb cell_capacity count then cell ∷ rest else rest

module _ (core position : Coordinate) (worker_index : ℕ) (obstacles : List Coordinate)
    (occupancy : Occupancy) (cell_capacity : ℕ) where
  -- The loop over the offsets, of which some remain.
  unfoldable pub route_from :
      (remaining offset_index : ℕ) → (staging_goal : Coordinate) → Result FullCapacityRoute
  route_from zero offset_index staging_goal =
      ok (record { next_step = none; staging_goal = staging_goal })
  route_from (suc remaining) offset_index staging_goal =
      add core (patrol_offset (worker_index + offset_index)) >>= λ goal.
      elim (mem_cell goal obstacles || eq_coordinate goal core) [
        | true ↦ route_from remaining (suc offset_index) staging_goal
        | false ↦
            if eq_coordinate position goal
            then ok (record { next_step = none; staging_goal = goal })
            else (first_step_toward position goal
                  (obstacles ++ core ∷ full_cells cell_capacity occupancy)
                >>= λ next. elim next [
                  | none ↦ route_from remaining (suc offset_index) goal
                  | some cell ↦ ok (record { next_step = some cell; staging_goal = goal })
                ])
      ]

  unfoldable pub full_capacity_worker_route : Result FullCapacityRoute
  full_capacity_worker_route = add core (patrol_offset worker_index) >>= λ staging_goal.
      if eq_coordinate position core
      then (vacate_core_step core worker_index obstacles occupancy cell_capacity >>= λ next.
          ok (record { next_step = next; staging_goal = staging_goal }))
      else route_from 8 0 staging_goal
