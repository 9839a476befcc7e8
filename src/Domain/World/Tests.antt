-- ===== src/Domain/World/Tests.antt =====
-- A small projection and its grid.
use arena_hero_agent.Prelude.{◌≡◌, refl, String, All, false, none, some, [], ◌∷◌}
use arena_hero_agent.Prelude.Int.{pos}
use arena_hero_agent.Prelude.Exceptions.{ok, raise, value_error}
use arena_hero_agent.Domain.ValueObjects.{Coordinate, eq_coordinate}
use arena_hero_agent.Domain.Navigation.{
  Bounds, contains, all_inside, navigation_grid, blocked, allow, state_at, can_enter, mem_cell,
}
use arena_hero_agent.Domain.Rules.{v0_14}
use arena_hero_agent.Domain.Economy.{worker}
use arena_hero_agent.Domain.World.{
  TerrainObservation, open_terrain, blocked_terrain, ResourceObservation, UnitObservation,
  WorldProjection, world_projection, project_grid,
}
use arena_hero_agent.Domain.World.Projection.{grid_of, project_grid_lem}

abbrev cell : Coordinate
cell = record { x = pos 0; y = pos 0 }

abbrev wall : Coordinate
wall = record { x = pos 1; y = pos 0 }

abbrev far : Coordinate
far = record { x = pos 2; y = pos 2 }

abbrev open_floor : TerrainObservation
open_floor = record { position = cell; state = open_terrain }

abbrev rock : TerrainObservation
rock = record { position = wall; state = blocked_terrain }

abbrev ore : ResourceObservation
ore = record { position = far; remaining = none }

abbrev fighter : String → UnitObservation
fighter id = record { id = id; position = cell; role = worker; health = 3; cargo = 0 }

-- The fields as given: the units and the terrain are out of order.
abbrev fields : WorldProjection
fields = record {
  tick = 4;
  rules_version = v0_14;
  core = none;
  units = fighter "b" ∷ fighter "a" ∷ [];
  entities = [];
  resources = ore ∷ [];
  terrain = rock ∷ open_floor ∷ [];
  beacon = none;
}

abbrev world : WorldProjection
world = record fields { units = fighter "a" ∷ fighter "b" ∷ []; terrain = open_floor ∷ rock ∷ [] }

built : world_projection fields ≡ ok world
unfolding world_projection eq_coordinate mem_cell
built = refl

duplicate_refused :
    world_projection (record fields { units = fighter "a" ∷ fighter "a" ∷ [] }) ≡ raise value_error
unfolding world_projection
duplicate_refused = refl

resource_in_rock_refused :
    world_projection
      (record fields { resources = record { position = wall; remaining = none } ∷ [] })
    ≡ raise value_error
unfolding world_projection eq_coordinate mem_cell
resource_in_rock_refused = refl

-- A grid whose bounds leave out the ore, and one whose bounds cut off the rock.
abbrev near : Bounds
near = record { min_x = pos 0; max_x = pos 1; min_y = pos 0; max_y = pos 1 }

abbrev single : Bounds
single = record { min_x = pos 0; max_x = pos 0; min_y = pos 0; max_y = pos 0 }

rock_outside_refused : project_grid world (some single) ≡ raise value_error
unfolding project_grid navigation_grid all_inside
rock_outside_refused = refl

project_grid_lem_example :
    (project_grid world none ≡ ok (grid_of world none))
    × (project_grid world (some near) ≡ ok (grid_of world (some near)))
    × (state_at (grid_of world (some near)) wall ≡ ok blocked)
    × All (λ r. can_enter (grid_of world (some near)) r.position allow ≡ false) world.resources
unfolding all_inside eq_coordinate contains
project_grid_lem_example = project_grid_lem world fields built (some near) wall
