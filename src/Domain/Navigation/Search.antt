-- ===== src/Domain/Navigation/Search.antt =====
-- `shortest_path` of domain/navigation.py, its queue, parents and limits as the code keeps them,
-- and the two functions that wrap it.
pub mod Paths
pub mod Invariant
pub mod Fuel
pub mod Cover
pub mod Correct
pub mod Reachability
mod Tests
use arena_hero_agent.Prelude.{
  ℕ, zero, suc, ◌+◌, ◌-◌, ◌*◌, Bool, true, false, ◌&&◌, ◌||◌, not, Option, none, some, List, [],
  ◌∷◌, ◌++◌, length, leb, ltb, if◌then◌else◌,
}
use arena_hero_agent.Prelude.Int.{pos_part, pos, ◌-ℤ◌, ◌+ℤ◌}
use arena_hero_agent.Prelude.Exceptions.{
  Result, ok, raise, value_error, key_error, unreachable_error, search_limit_exceeded, out_of_fuel,
  ◌>>=◌, ◌>>◌, raise_if,
}
use arena_hero_agent.Domain.ValueObjects.{Coordinate, eq_coordinate, Direction}
use arena_hero_agent.Domain.Navigation.{
  UnknownTraversalPolicy, block, allow, SearchLimits, Bounds, NavigationGrid, inside, mem_cell,
  contains, can_enter, chebyshev, candidate_neighbors, direction_to_adjacent,
}

-- The dict `parents`. It is only written at new keys and looked up, so the newest entry stands
-- first.
abbrev pub Parents : Type 0
Parents = List (Coordinate × Option Coordinate)

-- `cell in parents`
pub has_key : Coordinate → Parents → Bool
has_key c [] = false
has_key c ((k, _) ∷ parents) = eq_coordinate c k || has_key c parents

-- `parents[cell]`
pub parent_of : Coordinate → Parents → Result (Option Coordinate)
parent_of c [] = raise key_error
parent_of c ((k, p) ∷ parents) = if eq_coordinate c k then ok p else parent_of c parents

-- `while cursor is not None: path.append(cursor); cursor = parents[cursor]`, with the reversed path
-- as it grows. The fuel bounds the rounds.
pub trace : ℕ → Parents → Option Coordinate → List Coordinate → Result (List Coordinate)
trace fuel parents none path = ok path
trace zero parents (some c) path = raise out_of_fuel
trace (suc fuel) parents (some c) path = elim (parent_of c parents) [
  | raise e ↦ raise e
  | ok parent ↦ trace fuel parents parent (c ∷ path)
]

pub record Frontier : Type 0 where
  pub queue : List Coordinate
  pub parents : Parents
  pub radius_pruned : Bool

-- How the loop over the neighbours ends: by its early return, or with the new frontier.
pub data Visit : Type 0 where
  returned : Result (List Coordinate) → Visit
  continued : Frontier → Visit

-- What the loop does with one neighbour.
pub data Fate : Type 0 where
  pruned skipped discovered : Fate

-- `limits is not None and chebyshev(start, cell) > limits.search_radius`
abbrev pub beyond_radius : Option SearchLimits → Coordinate → Coordinate → Bool
beyond_radius none start c = false
beyond_radius (some l) start c = ltb l.search_radius (chebyshev start c)

-- `limits is not None and expanded >= limits.node_budget`
abbrev pub budget_spent : Option SearchLimits → ℕ → Bool
budget_spent none expanded = false
budget_spent (some l) expanded = leb l.node_budget expanded

abbrev pub first_frontier : Coordinate → Frontier
first_frontier start = record {
  queue = start ∷ [];
  parents = (start, none) ∷ [];
  radius_pruned = false;
}

module _ (grid : NavigationGrid) (policy : UnknownTraversalPolicy) (limits : Option SearchLimits)
    (start target : Coordinate) where
  pub fate : Coordinate → Parents → Fate
  fate neighbor parents =
      if beyond_radius limits start neighbor
      then pruned
      else if has_key neighbor parents || not (can_enter grid neighbor policy)
      then skipped
      else discovered

  -- What `radius_pruned` becomes at a neighbour beyond the radius.
  abbrev pub prune : Coordinate → Frontier → Frontier
  prune neighbor f = record f {
    radius_pruned =
        if inside grid.bounds neighbor && not (mem_cell neighbor grid.blocked_cells)
        then true
        else f.radius_pruned;
  }

  -- The loop over `_candidate_neighbors(current, target)`.
  pub visit_neighbors : (current : Coordinate) → List Coordinate → Frontier → Visit
  unfolding fate has_key parent_of trace can_enter mem_cell chebyshev contains eq_coordinate
  visit_neighbors current [] f = continued f
  visit_neighbors current (neighbor ∷ rest) f = elim (fate neighbor f.parents) [
    | pruned ↦ visit_neighbors current rest (prune neighbor f)
    | skipped ↦ visit_neighbors current rest f
    | discovered ↦
        let parents = (neighbor, some current) ∷ f.parents in
        elim (eq_coordinate neighbor target) [
          | true ↦ returned (trace (suc (length parents)) parents (some current) (target ∷ []))
          | false ↦
              visit_neighbors current rest
                (record f { queue = f.queue ++ neighbor ∷ []; parents = parents })
        ]
  ]

  -- The `while queue` loop, by recursion on fuel.
  pub search : ℕ → (expanded : ℕ) → Frontier → Result (List Coordinate)
  unfolding visit_neighbors candidate_neighbors
  search zero expanded f = raise out_of_fuel
  search (suc fuel) expanded f = elim f.queue [
    | [] ↦ raise (if f.radius_pruned then search_limit_exceeded else unreachable_error)
    | current ∷ queue ↦ elim (budget_spent limits expanded) [
      | true ↦ raise search_limit_exceeded
      | false ↦
          elim (visit_neighbors current (candidate_neighbors current target)
            (record f { queue = queue })) [
              | returned path ↦ path
              | continued f' ↦ search fuel (expanded + 1) f'
            ]
    ]
  ]

-- How often the loop can turn: the node budget, or else the number of cells that it can enter,
-- which are those within the bounds or, with unknown cells blocked, the open ones.
abbrev pub area : Bounds → ℕ
area b = pos_part (b.max_x -ℤ b.min_x +ℤ pos 1) * pos_part (b.max_y -ℤ b.min_y +ℤ pos 1)

abbrev pub cell_count : NavigationGrid → UnknownTraversalPolicy → ℕ
cell_count grid block = length grid.open_cells
cell_count grid allow = elim grid.bounds [ none ↦ 0 | some b ↦ area b ]

abbrev pub search_fuel : NavigationGrid → UnknownTraversalPolicy → Option SearchLimits → ℕ
search_fuel grid policy none = cell_count grid policy + 3
search_fuel grid policy (some l) = l.node_budget + 2

abbrev is_none {ℓ} : {A : Type ℓ} → Option A → Bool
is_none none = true
is_none (some _) = false

abbrev is_allow : UnknownTraversalPolicy → Bool
is_allow allow = true
is_allow block = false

-- The search of an unbounded grid through unknown cells without limits, which the code refuses.
abbrev pub unbounded : NavigationGrid → UnknownTraversalPolicy → Option SearchLimits → Bool
unbounded grid policy limits = (is_allow policy && is_none grid.bounds) && is_none limits

pub shortest_path :
    NavigationGrid
    → (start target : Coordinate) → UnknownTraversalPolicy
    → Option SearchLimits
    → Result (List Coordinate)
unfolding search
shortest_path grid start target policy limits = do
  raise_if (unbounded grid policy limits) value_error
  raise_if (not (can_enter grid start policy)) unreachable_error
  raise_if (not (can_enter grid target policy)) unreachable_error
  raise_if (beyond_radius limits start target) search_limit_exceeded
  if eq_coordinate start target
      then ok (start ∷ [])
      else search grid policy limits start target (search_fuel grid policy limits) 0
          (first_frontier start)

-- The end of `first_step`: `path[0]`, `path[1]` of a path with at least two cells.
abbrev pub step_along : List Coordinate → Result Direction
step_along (first ∷ second ∷ _) = direction_to_adjacent first second
step_along _ = raise value_error

pub first_step :
    NavigationGrid
    → (start target : Coordinate) → UnknownTraversalPolicy
    → Option SearchLimits
    → Result Direction
unfolding shortest_path
first_step grid start target policy limits = do
  path ← shortest_path grid start target policy limits
  step_along path

-- `except UnreachableError: return False`; any other exception passes on.
abbrev pub reachability : Result (List Coordinate) → Result Bool
reachability (ok _) = ok true
reachability (raise unreachable_error) = ok false
reachability (raise e) = raise e

pub is_reachable :
    NavigationGrid
    → (start target : Coordinate) → UnknownTraversalPolicy
    → Option SearchLimits
    → Result Bool
unfolding shortest_path
is_reachable grid start target policy limits =
    reachability (shortest_path grid start target policy limits)
