-- ===== src/Domain/Navigation.antt =====
-- domain/navigation.py: terrain knowledge, grid distances, and the order of directions. The search
-- over them stands in Search. A frozenset of cells is a list, of which only membership is read.
pub mod Metric
pub mod Neighbors
pub mod Search
use arena_hero_agent.Prelude.{
  ℕ, ◌+◌, Bool, true, false, ◌&&◌, ◌||◌, not, Option, none, some, List, [], ◌∷◌, ◌++◌, leb, ltb,
  ◌==◌, max, if◌then◌else◌,
}
use arena_hero_agent.Prelude.Int.{ℤ, pos, negsuc, ◌-ℤ◌, leb_ℤ, ltb_ℤ, eq_ℤ, nat_abs}
use arena_hero_agent.Prelude.Exceptions.{Result, ok, raise, value_error, ◌>>=◌, ◌>>◌, raise_if}
use arena_hero_agent.Domain.ValueObjects.{
  Coordinate, coordinate, eq_coordinate, Direction, north, east, south, west, step,
}

pub data UnknownTraversalPolicy : Type 0 where
  block allow : UnknownTraversalPolicy

pub data CellState : Type 0 where
  unknown open_cell blocked : CellState

pub record SearchLimits : Type 0 where
  pub node_budget : ℕ
  pub search_radius : ℕ

-- `SearchLimits.__post_init__`
pub search_limits : ℕ → ℕ → Result SearchLimits
search_limits node_budget search_radius = do
  raise_if (ltb node_budget 1) value_error
  raise_if (ltb search_radius 1) value_error
  ok (record { node_budget = node_budget; search_radius = search_radius })

pub record Bounds : Type 0 where
  pub min_x : ℤ
  pub max_x : ℤ
  pub min_y : ℤ
  pub max_y : ℤ

-- `Bounds.__post_init__`
pub bounds : ℤ → ℤ → ℤ → ℤ → Result Bounds
unfolding coordinate
bounds min_x max_x min_y max_y = do
  coordinate min_x (pos 0)
  coordinate max_x (pos 0)
  coordinate (pos 0) min_y
  coordinate (pos 0) max_y
  raise_if (ltb_ℤ max_x min_x) value_error
  raise_if (ltb_ℤ max_y min_y) value_error
  ok (record { min_x = min_x; max_x = max_x; min_y = min_y; max_y = max_y })

-- `Bounds.contains`
unfoldable pub contains : Bounds → Coordinate → Bool
contains b c = (leb_ℤ b.min_x c.x && leb_ℤ c.x b.max_x) && (leb_ℤ b.min_y c.y && leb_ℤ c.y b.max_y)

-- `cell in cells`
unfoldable pub mem_cell : Coordinate → List Coordinate → Bool
mem_cell c [] = false
mem_cell c (d ∷ cells) = eq_coordinate c d || mem_cell c cells

pub record NavigationGrid : Type 0 where
  pub open_cells : List Coordinate
  pub blocked_cells : List Coordinate
  pub bounds : Option Bounds

-- `self.bounds is None or self.bounds.contains(cell)`
abbrev pub inside : Option Bounds → Coordinate → Bool
inside none c = true
inside (some b) c = contains b c

unfoldable pub any_mem : List Coordinate → List Coordinate → Bool
any_mem [] cells = false
any_mem (c ∷ rest) cells = mem_cell c cells || any_mem rest cells

unfoldable pub all_inside : Option Bounds → List Coordinate → Bool
all_inside b [] = true
all_inside b (c ∷ rest) = inside b c && all_inside b rest

-- `NavigationGrid.__post_init__`
unfoldable pub navigation_grid :
    List Coordinate → List Coordinate → Option Bounds → Result NavigationGrid
unfolding any_mem all_inside mem_cell contains eq_coordinate
navigation_grid open_cells blocked_cells b = do
  raise_if (any_mem open_cells blocked_cells) value_error
  raise_if (not (all_inside b open_cells && all_inside b blocked_cells)) value_error
  ok (record { open_cells = open_cells; blocked_cells = blocked_cells; bounds = b })

-- The tests of `state_at` behind its check of the bounds.
abbrev terrain_at : NavigationGrid → Coordinate → CellState
terrain_at grid c =
    if mem_cell c grid.blocked_cells
    then blocked
    else if mem_cell c grid.open_cells
    then open_cell
    else unknown

-- `NavigationGrid.state_at`
unfoldable pub state_at : NavigationGrid → Coordinate → Result CellState
state_at grid c = if inside grid.bounds c then ok (terrain_at grid c) else raise value_error

-- `NavigationGrid.can_enter`; its call of `state_at` stands behind the same check of the bounds.
unfoldable pub can_enter : NavigationGrid → Coordinate → UnknownTraversalPolicy → Bool
can_enter grid c policy =
    if inside grid.bounds c
    then elim (terrain_at grid c) [
      | blocked ↦ false
      | open_cell ↦ true
      | unknown ↦ elim policy [ block ↦ false | allow ↦ true ]
    ]
    else false

-- Distances between signed 32-bit coordinates are natural numbers.
unfoldable pub manhattan : Coordinate → Coordinate → ℕ
manhattan a b = nat_abs (a.x -ℤ b.x) + nat_abs (a.y -ℤ b.y)

pub chebyshev : Coordinate → Coordinate → ℕ
chebyshev a b = max (nat_abs (a.x -ℤ b.x)) (nat_abs (a.y -ℤ b.y))

pub direction_to_adjacent : Coordinate → Coordinate → Result Direction
direction_to_adjacent origin target =
    let dx = target.x -ℤ origin.x in
    let dy = target.y -ℤ origin.y in
    if not (nat_abs dx + nat_abs dy == 1)
    then raise value_error
    else if eq_ℤ dx (pos 1)
    then ok east
    else if eq_ℤ dx (negsuc 0)
    then ok west
    else if eq_ℤ dy (pos 1)
    then ok south
    else ok north

-- The order of `_PATH_DIRECTION_ORDER`, as the directions that are not yet preferred.
abbrev same_direction : Direction → Direction → Bool
same_direction north north = true
same_direction east east = true
same_direction south south = true
same_direction west west = true
same_direction _ _ = false

abbrev in_directions : Direction → List Direction → Bool
in_directions d [] = false
in_directions d (e ∷ ds) = same_direction d e || in_directions d ds

abbrev pub path_direction_order : List Direction
path_direction_order = east ∷ south ∷ west ∷ north ∷ []

-- `preferred.extend(direction for direction in … if direction not in preferred)`, where the
-- generator reads the list that it extends
abbrev extend : List Direction → List Direction → List Direction
extend preferred [] = preferred
extend preferred (d ∷ ds) =
    extend (if in_directions d preferred then preferred else preferred ++ d ∷ []) ds

abbrev some_directions : List (Option Direction) → List Direction
some_directions [] = []
some_directions (none ∷ axes) = some_directions axes
some_directions (some d ∷ axes) = d ∷ some_directions axes

-- The directions along the axes towards the target, the longer way first.
abbrev axis_directions : Coordinate → Coordinate → List Direction
axis_directions origin target =
    let dx = target.x -ℤ origin.x in
    let dy = target.y -ℤ origin.y in
    let x_direction : Option Direction =
      if eq_ℤ dx (pos 0) then none else if ltb_ℤ (pos 0) dx then some east else some west in
    let y_direction : Option Direction =
      if eq_ℤ dy (pos 0) then none else if ltb_ℤ (pos 0) dy then some south else some north in
    let axes : List (Option Direction) =
      if leb (nat_abs dy) (nat_abs dx)
      then x_direction ∷ y_direction ∷ []
      else y_direction ∷ x_direction ∷ [] in
    some_directions axes

-- `_ordered_directions`
pub ordered_directions : Coordinate → Coordinate → List Direction
ordered_directions origin target = extend (axis_directions origin target) path_direction_order

-- `origin.step(direction)` for each direction, less those that leave the 32-bit range
abbrev steps_from : Coordinate → List Direction → List Coordinate
steps_from origin [] = []
steps_from origin (d ∷ ds) = elim (step origin d (pos 1)) [
  | ok c ↦ c ∷ steps_from origin ds
  | raise e ↦ steps_from origin ds
]

-- `_candidate_neighbors`
pub candidate_neighbors : Coordinate → Coordinate → List Coordinate
unfolding step ordered_directions
candidate_neighbors origin target = steps_from origin (ordered_directions origin target)
