-- ===== src/Domain/World.antt =====
-- domain/world.py: the observations of the world, and their canonical projection. An id is its text.
-- An int that a class checks to be a safe one is a natural number, checked where it comes in.
pub mod Equality
pub mod Projection
mod Tests
use arena_hero_agent.Prelude.{
  ℕ, ◌≡◌, String, Bool, true, false, ◌&&◌, ◌||◌, not, Option, none, some, List, [], ◌∷◌, ◌++◌, map,
  ltb, if◌then◌else◌,
}
use arena_hero_agent.Prelude.Int.{ℤ, leb_ℤ, ltb_ℤ, eq_ℤ}
use arena_hero_agent.Prelude.Exceptions.{Result, ok, raise, value_error, ◌>>=◌, ◌>>◌, raise_if}
use arena_hero_agent.Prelude.Sort.{text_leq, sort_by, has_duplicate, any_of}
use arena_hero_agent.Domain.ValueObjects.{Coordinate, eq_coordinate}
use arena_hero_agent.Domain.Navigation.{NavigationGrid, Bounds, mem_cell, any_mem, navigation_grid}
use arena_hero_agent.Domain.Rules.{RulesVersion, nonnegative_safe_int, max_safe_integer}
use arena_hero_agent.Domain.Economy.{UnitRole}

pub data EntityKind : Type 0 where
  unit_entity core_entity : EntityKind

pub data CoreState : Type 0 where
  normal moving : CoreState

pub data TerrainState : Type 0 where
  open_terrain blocked_terrain : TerrainState

abbrev pub same_terrain : TerrainState → TerrainState → Bool
same_terrain open_terrain open_terrain = true
same_terrain blocked_terrain blocked_terrain = true
same_terrain open_terrain blocked_terrain = false
same_terrain blocked_terrain open_terrain = false

pub data BeaconStatus : Type 0 where
  unknown_beacon ground_beacon carried : BeaconStatus

pub record UnitObservation : Type 0 where
  pub id : String
  pub position : Coordinate
  pub role : UnitRole
  pub health : ℕ
  pub cargo : ℕ

-- `UnitObservation(...)`, with the checks of `__post_init__`
pub unit_observation : String → Coordinate → UnitRole → (health cargo : ℤ) → Result UnitObservation
unit_observation id position role health cargo = do
  h ← nonnegative_safe_int health
  c ← nonnegative_safe_int cargo
  ok (record { id = id; position = position; role = role; health = h; cargo = c })

pub record EntityObservation : Type 0 where
  pub id : String
  pub kind : EntityKind
  pub position : Coordinate
  pub health : ℕ
  pub owner : Option String
  pub unit_role : Option UnitRole

pub record ResourceObservation : Type 0 where
  pub position : Coordinate
  pub remaining : Option ℕ

pub record TerrainObservation : Type 0 where
  pub position : Coordinate
  pub state : TerrainState

pub record BeaconObservation : Type 0 where
  pub position : Coordinate
  pub status : BeaconStatus
  pub carrier_id : Option String

pub record CoreObservation : Type 0 where
  pub id : String
  pub position : Coordinate
  pub health : ℕ
  pub shield : ℕ
  pub state : CoreState
  pub owner : String
  pub destination : Option Coordinate

pub record WorldProjection : Type 0 where
  pub tick : ℕ
  pub rules_version : RulesVersion
  pub core : Option CoreObservation
  pub units : List UnitObservation
  pub entities : List EntityObservation
  pub resources : List ResourceObservation
  pub terrain : List TerrainObservation
  pub beacon : Option BeaconObservation

abbrev pub is_some {ℓ} : {A : Type ℓ} → Option A → Bool
is_some none = false
is_some (some _) = true

-- A carrier is given exactly for a carried beacon.
abbrev carrier_fits : BeaconStatus → Option String → Bool
carrier_fits carried carrier = is_some carrier
carrier_fits unknown_beacon carrier = not (is_some carrier)
carrier_fits ground_beacon carrier = not (is_some carrier)

-- `BeaconObservation(...)`, with the checks of `__post_init__`
pub beacon_observation : Coordinate → BeaconStatus → Option String → Result BeaconObservation
beacon_observation position status carrier = do
  raise_if (not (carrier_fits status carrier)) value_error
  ok (record { position = position; status = status; carrier_id = carrier })

-- `_duplicate_values` of the cells' keys: two cells have one key where they are equal.
unfoldable pub has_duplicate_cell : List Coordinate → Bool
unfolding mem_cell
has_duplicate_cell [] = false
has_duplicate_cell (c ∷ cells) = mem_cell c cells || has_duplicate_cell cells

-- The order of coordinates by (x, y).
abbrev pub cell_leq : Coordinate → Coordinate → Bool
cell_leq a b = ltb_ℤ a.x b.x || (eq_ℤ a.x b.x && leb_ℤ a.y b.y)

-- The positions of the observations of one terrain state.
unfoldable pub cells_of : TerrainState → List TerrainObservation → List Coordinate
cells_of state [] = []
cells_of state (t ∷ terrain) =
    if same_terrain t.state state
    then t.position ∷ cells_of state terrain
    else cells_of state terrain

abbrev core_ids : Option CoreObservation → List String
core_ids none = []
core_ids (some c) = c.id ∷ []

-- The ids of the units, of the entities and of the Core.
abbrev pub identifiers : WorldProjection → List String
identifiers world =
    map (λ u. u.id) world.units ++ (map (λ e. e.id) world.entities ++ core_ids world.core)

-- The checks of `WorldProjection.__post_init__` behind the sorting.
unfoldable pub checked_projection : WorldProjection → Result WorldProjection
unfolding has_duplicate has_duplicate_cell cells_of any_mem
checked_projection world = do
  raise_if (has_duplicate (identifiers world)) value_error
  raise_if (has_duplicate_cell (map (λ r. r.position) world.resources)) value_error
  raise_if (has_duplicate_cell (map (λ t. t.position) world.terrain)) value_error
  raise_if
      (any_mem (map (λ r. r.position) world.resources) (cells_of blocked_terrain world.terrain))
      value_error
  ok world

-- The four lists of a projection in their canonical order.
unfoldable pub normalized : WorldProjection → WorldProjection
unfolding sort_by
normalized world = record world {
  units = sort_by (λ a b. text_leq a.id b.id) world.units;
  entities = sort_by (λ a b. text_leq a.id b.id) world.entities;
  resources = sort_by (λ a b. cell_leq a.position b.position) world.resources;
  terrain = sort_by (λ a b. cell_leq a.position b.position) world.terrain;
}

-- `WorldProjection(...)` of the given fields
unfoldable pub world_projection : WorldProjection → Result WorldProjection
unfolding checked_projection normalized
world_projection fields = do
  raise_if (ltb max_safe_integer fields.tick) value_error
  checked_projection (normalized fields)

-- `WorldProjection.navigation_grid`
unfoldable pub project_grid : WorldProjection → Option Bounds → Result NavigationGrid
unfolding cells_of navigation_grid
project_grid world bounds =
    navigation_grid (cells_of open_terrain world.terrain) (cells_of blocked_terrain world.terrain)
      bounds
