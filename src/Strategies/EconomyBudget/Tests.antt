-- ===== src/Strategies/EconomyBudget/Tests.antt =====
-- Runs of the budget and of the routes, and the theorem at a concrete input.
use arena_hero_agent.Prelude.{◌≡◌, refl, some, [], ◌∷◌, List, arith}
use arena_hero_agent.Prelude.Int.{pos, negsuc, ◌+ℤ◌, ◌*ℤ◌}
use arena_hero_agent.Prelude.Exceptions.{ok}
use arena_hero_agent.Prelude.Sort.{sort_by, insert_sorted}
use arena_hero_agent.Domain.ValueObjects.{Coordinate, coordinate, step, eq_coordinate}
use arena_hero_agent.Domain.Navigation.{mem_cell}
use arena_hero_agent.Domain.Rules.{v0_14}
use arena_hero_agent.Domain.Economy.{worker, vanguard, unit_price}
use arena_hero_agent.Strategies.EconomyBudget.{
  Occupancy, heal_reserve, projected_core_resources, stage_cost, worker_expansion_threshold,
  occupancy_at, steps_of, first_vacant, vacate_core_step,
}
use arena_hero_agent.Strategies.EconomyBudget.Dispersal.{
  FullCapacityRoute, full_capacity_worker_route,
}
use arena_hero_agent.Strategies.EconomyBudget.Routes.{IsOpenStep, full_capacity_worker_route_lem}

reserved : projected_core_resources 4 3 7 (heal_reserve (worker ∷ vanguard ∷ [])) ≡ 3
unfolding projected_core_resources heal_reserve
reserved = refl

late_stage : worker_expansion_threshold 6 20 100 19 v0_14 6 10 15 ≡ ok 27
unfolding worker_expansion_threshold stage_cost unit_price
late_stage = refl

abbrev core : Coordinate
core = record { x = pos 0; y = pos 0 }

abbrev north_cell : Coordinate
north_cell = record { x = pos 0; y = negsuc 0 }

abbrev east_cell : Coordinate
east_cell = record { x = pos 1; y = pos 0 }

abbrev south_cell : Coordinate
south_cell = record { x = pos 0; y = pos 1 }

abbrev crowded : Occupancy
crowded = (core, 2) ∷ (east_cell, 2) ∷ (south_cell, 1) ∷ []

abbrev west_blocked : List Coordinate
west_blocked = north_cell ∷ record { x = negsuc 0; y = pos 0 } ∷ []

abbrev route : FullCapacityRoute
route = record { next_step = some south_cell; staging_goal = record { x = pos 3; y = pos 3 } }

-- The northern and western cells are obstacles, the eastern one is full.
vacated : full_capacity_worker_route core core 1 west_blocked crowded 2 ≡ ok route
unfolding full_capacity_worker_route vacate_core_step steps_of first_vacant occupancy_at step
    coordinate eq_coordinate mem_cell sort_by insert_sorted ◌+ℤ◌ ◌*ℤ◌
vacated = refl

full_capacity_worker_route_lem_example : IsOpenStep core core 1 west_blocked crowded 2 south_cell
full_capacity_worker_route_lem_example =
    full_capacity_worker_route_lem core core 1 west_blocked crowded 2 {r = route} (omega arith)
      vacated refl
