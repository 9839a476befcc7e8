-- ===== src/Domain/World/Projection.antt =====
-- domain/world.py: a canonical projection, and the navigation grid of its terrain.
use mathlib.Core.Path.{subst}
use arena_hero_agent.Prelude.{
  ◌≡◌, refl, true, false, ◌&&◌, ◌⊎◌, inl, inr, Option, none, List, [], ◌∷◌, map, All, ltb, arith,
  if◌then◌else◌,
}
use arena_hero_agent.Prelude.Exceptions.{ok, raise, value_error, >>=-ok, raise_if}
use arena_hero_agent.Domain.Rules.{max_safe_integer}
use arena_hero_agent.Prelude.Sort.{has_duplicate}
use arena_hero_agent.Domain.ValueObjects.{Coordinate, eq_coordinate, eq_coordinate_iff}
use arena_hero_agent.Domain.Navigation.{
  Bounds, inside, NavigationGrid, CellState, open_cell, blocked, unknown, allow, mem_cell, any_mem,
  all_inside, navigation_grid, state_at, can_enter,
}
use arena_hero_agent.Domain.World.{
  TerrainState, open_terrain, blocked_terrain, TerrainObservation, ResourceObservation,
  WorldProjection, has_duplicate_cell, cells_of, identifiers, checked_projection, normalized,
  world_projection, project_grid,
}

abbrev pub positions : List TerrainObservation → List Coordinate
positions terrain = map (λ t. t.position) terrain

terrain_cases : (s : TerrainState) → (s ≡ open_terrain) ⊎ (s ≡ blocked_terrain)
terrain_cases open_terrain = inl refl
terrain_cases blocked_terrain = inr refl

mem_cell-cells_of :
    (c : Coordinate) (s : TerrainState) (terrain : List TerrainObservation)
    → mem_cell c (positions terrain) ≡ false
    → mem_cell c (cells_of s terrain) ≡ false
unfolding mem_cell cells_of
mem_cell-cells_of c s [] h = refl
mem_cell-cells_of c s (t ∷ terrain) h = ground (arith, mem_cell-cells_of c s terrain)

-- Of distinct cells none is both open and blocked.
any_mem-cons :
    (c : Coordinate) (cells other : List Coordinate)
    → mem_cell c cells ≡ false
    → any_mem cells (c ∷ other) ≡ any_mem cells other
unfolding any_mem mem_cell
any_mem-cons c [] other h = refl
any_mem-cons c (d ∷ cells) other h =
    ground (arith, eq_coordinate_iff c d, eq_coordinate_iff d c, any_mem-cons c cells other)

open_not_blocked :
    (terrain : List TerrainObservation)
    → has_duplicate_cell (positions terrain) ≡ false
    → any_mem (cells_of open_terrain terrain) (cells_of blocked_terrain terrain) ≡ false
unfolding any_mem cells_of has_duplicate_cell
open_not_blocked [] h = refl
open_not_blocked (t ∷ terrain) h = elim (terrain_cases t.state) [
  | inl e ↦ rw e (
      ground
        (arith, open_not_blocked terrain, mem_cell-cells_of t.position blocked_terrain terrain))
  | inr e ↦ rw e (
      ground (
        arith,
        open_not_blocked terrain,
        mem_cell-cells_of t.position open_terrain terrain,
        any_mem-cons t.position (cells_of open_terrain terrain) (cells_of blocked_terrain terrain),
      ))
]

all_inside-none : (cells : List Coordinate) → all_inside none cells ≡ true
unfolding all_inside
all_inside-none [] = refl
all_inside-none (c ∷ cells) = all_inside-none cells

-- What the checks of a projection establish.
pub record IsCanonical (world : WorldProjection) : Type 0 where
  pub distinct_ids : has_duplicate (identifiers world) ≡ false
  pub distinct_resources : has_duplicate_cell (map (λ r. r.position) world.resources) ≡ false
  pub distinct_terrain : has_duplicate_cell (positions world.terrain) ≡ false
  pub reachable_resources :
      any_mem (map (λ r. r.position) world.resources) (cells_of blocked_terrain world.terrain)
      ≡ false

checked_projection-IsCanonical :
    (fields : WorldProjection) {world : WorldProjection}
    → checked_projection fields ≡ ok world
    → (fields ≡ world) × IsCanonical fields
unfolding checked_projection
checked_projection-IsCanonical fields e = ground arith

-- A projection that is built is canonical.
pub world_projection-IsCanonical :
    (fields : WorldProjection) {world : WorldProjection}
    → world_projection fields ≡ ok world
    → IsCanonical world
unfolding world_projection
world_projection-IsCanonical fields e =
    let (_, _, rest) = >>=-ok (raise_if (ltb max_safe_integer fields.tick) value_error) _ e in
    let (same, canonical) = checked_projection-IsCanonical (normalized fields) rest in
    subst IsCanonical same canonical

abbrev pub cell_state : TerrainState → CellState
cell_state open_terrain = open_cell
cell_state blocked_terrain = blocked

-- What the observations say of a cell.
abbrev pub observed_at : List TerrainObservation → Coordinate → CellState
observed_at [] c = unknown
observed_at (t ∷ terrain) c =
    if eq_coordinate c t.position then cell_state t.state else observed_at terrain c

-- Of distinct observations, the two lists of cells give the state that is observed.
terrain_at_observed :
    (terrain : List TerrainObservation) (c : Coordinate)
    → has_duplicate_cell (positions terrain) ≡ false
    → (if mem_cell c (cells_of blocked_terrain terrain)
        then blocked
        else if mem_cell c (cells_of open_terrain terrain)
        then open_cell
        else unknown)
      ≡ observed_at terrain c
unfolding mem_cell cells_of has_duplicate_cell
terrain_at_observed [] c h = refl
terrain_at_observed (t ∷ terrain) c h = elim (terrain_cases t.state) [
  | inl e ↦ rw e (
      ground (
        arith,
        eq_coordinate_iff c t.position,
        terrain_at_observed terrain c,
        mem_cell-cells_of t.position blocked_terrain terrain,
      ))
  | inr e ↦ rw e (ground (arith, eq_coordinate_iff c t.position, terrain_at_observed terrain c))
]

-- The cells of the two lists are those of the observations.
all_inside-cells_of :
    (b : Option Bounds) (terrain : List TerrainObservation)
    → (all_inside b (cells_of open_terrain terrain)
        && all_inside b (cells_of blocked_terrain terrain))
      ≡ all_inside b (positions terrain)
unfolding all_inside cells_of
all_inside-cells_of b [] = refl
all_inside-cells_of b (t ∷ terrain) = elim (terrain_cases t.state) [
  | inl e ↦ rw e (ground (arith, all_inside-cells_of b terrain))
  | inr e ↦ rw e (ground (arith, all_inside-cells_of b terrain))
]

module _ (world : WorldProjection) where
  abbrev pub grid_of : Option Bounds → NavigationGrid
  grid_of b = record {
    open_cells = cells_of open_terrain world.terrain;
    blocked_cells = cells_of blocked_terrain world.terrain;
    bounds = b;
  }

  project_grid_cases :
      IsCanonical world
      → (b : Option Bounds)
      → project_grid world b
        ≡ (if all_inside b (positions world.terrain) then ok (grid_of b) else raise value_error)
  unfolding project_grid navigation_grid
  project_grid_cases c b =
      ground (arith, open_not_blocked world.terrain, all_inside-cells_of b world.terrain)

  state_at_observed :
      IsCanonical world
      → (b : Option Bounds) (c : Coordinate)
      → state_at (grid_of b) c
        ≡ (if inside b c then ok (observed_at world.terrain c) else raise value_error)
  unfolding state_at
  state_at_observed canonical b c =
      ground (arith, terrain_at_observed world.terrain c canonical.distinct_terrain)

  resources_open :
      (b : Option Bounds) (resources : List ResourceObservation)
      → any_mem (map (λ r. r.position) resources) (cells_of blocked_terrain world.terrain) ≡ false
      → All (λ r. can_enter (grid_of b) r.position allow ≡ inside b r.position) resources
  unfolding can_enter any_mem
  resources_open b [] h = tt
  resources_open b (r ∷ resources) h = (ground arith, resources_open b resources (ground arith))

  -- The terrain of a projection that is built always makes a grid without bounds, and one with bounds
  -- just if they hold each observed cell; else it raises a ValueError. In the grid a cell within the
  -- bounds has the state that is observed for it, or is unknown if none is, and the cell of each
  -- observed resource can be entered within the bounds, where unknown cells may be crossed.
  pub project_grid_lem :
      (fields : WorldProjection)
      → world_projection fields ≡ ok world
      → (b : Option Bounds) (c : Coordinate)
      → (project_grid world none ≡ ok (grid_of none))
        × (project_grid world b ≡ (
            if all_inside b (positions world.terrain) then ok (grid_of b) else raise value_error))
        × (state_at (grid_of b) c
            ≡ (if inside b c then ok (observed_at world.terrain c) else raise value_error))
        × All (λ r. can_enter (grid_of b) r.position allow ≡ inside b r.position) world.resources
  project_grid_lem fields built b c =
      let canonical = world_projection-IsCanonical fields built in
      (
        rw (project_grid_cases canonical none, all_inside-none (positions world.terrain)) refl,
        project_grid_cases canonical b,
        state_at_observed canonical b c,
        resources_open b world.resources canonical.reachable_resources,
      )
