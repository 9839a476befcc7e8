-- ===== src/Strategies/EconomyBudget.antt =====
-- strategies/economy_budget.py: what the Core may spend in a tick, and where full workers step. Amounts
-- are numbers; frozensets and the mapping of the occupancy are lists, an absent cell counting 0;
-- keyword arguments are arguments.
mod Dispersal
mod Steps
mod Routes
mod Tests
use arena_hero_agent.Prelude.{
  ℕ, zero, suc, ◌+◌, ◌-◌, ◌*◌, min, max, Bool, true, false, ◌||◌, Option, none, some, List, [], ◌∷◌,
  ◌++◌, ltb, leb, if◌then◌else◌,
}
use Prim.Native.Nat.{◌/◌, ◌%◌}
use arena_hero_agent.Prelude.Int.{ℤ, pos, negsuc, ◌+ℤ◌, ltb_ℤ}
use arena_hero_agent.Prelude.Sort.{sort_by}
use arena_hero_agent.Prelude.Exceptions.{
  Exception, Result, ok, raise, unreachable_error, search_limit_exceeded, ◌>>=◌, ◌>>◌,
}
use arena_hero_agent.Domain.ValueObjects.{
  Coordinate, coordinate, eq_coordinate, step, Direction, north, east, south, west,
}
use arena_hero_agent.Domain.Navigation.{
  NavigationGrid, SearchLimits, allow, mem_cell, navigation_grid, manhattan,
}
use arena_hero_agent.Domain.Navigation.Search.{shortest_path}
use arena_hero_agent.Domain.Rules.{RulesVersion}
use arena_hero_agent.Domain.Economy.{UnitRole, worker, vanguard, ranger, unit_price}

abbrev unit_max_health : UnitRole → ℕ
unit_max_health vanguard = 4
unit_max_health _ = 2

unfoldable heal_reserve : List UnitRole → ℕ
heal_reserve [] = 0
heal_reserve (role ∷ healing_roles) = (unit_max_health role - 1) + heal_reserve healing_roles

unfoldable projected_core_resources :
    (resources resource_space deposit_cargo healing_reserve : ℕ) → ℕ
projected_core_resources resources resource_space deposit_cargo healing_reserve =
    resources + min resource_space deposit_cargo - healing_reserve

abbrev can_afford_heal : (resources missing_health reserve : ℕ) → Bool
can_afford_heal resources missing_health reserve = leb (reserve + missing_health) resources

unfoldable spawn_clear_until : (tick previous_clear_until : ℕ) → (cell_unit_limit : Bool) → ℕ
spawn_clear_until tick previous_clear_until cell_unit_limit =
    if cell_unit_limit then max previous_clear_until (tick + 3) else previous_clear_until

abbrev spawn_suspended : (tick clear_until : ℕ) → Bool
spawn_suspended tick clear_until = ltb tick clear_until

-- `occupancy.get(cell, 0)`
abbrev Occupancy : Type 0
Occupancy = List (Coordinate × ℕ)

unfoldable occupancy_at : Occupancy → Coordinate → ℕ
occupancy_at [] cell = 0
occupancy_at ((c, n) ∷ occupancy) cell =
    let rest = occupancy_at occupancy cell in if eq_coordinate c cell then n else rest

-- `_CARDINAL_ORDER[start:] + _CARDINAL_ORDER[:start]`
abbrev cardinal_from : ℕ → List Direction
cardinal_from zero = north ∷ east ∷ south ∷ west ∷ []
cardinal_from (suc zero) = east ∷ south ∷ west ∷ north ∷ []
cardinal_from (suc (suc zero)) = south ∷ west ∷ north ∷ east ∷ []
cardinal_from _ = west ∷ north ∷ east ∷ south ∷ []

-- `[core.step(direction) for direction in directions]`
unfoldable steps_of : Coordinate → List Direction → Result (List Coordinate)
steps_of core [] = ok []
steps_of core (direction ∷ directions) = do
  cell ← step core direction (pos 1)
  cells ← steps_of core directions
  ok (cell ∷ cells)

-- The first cell that is neither an obstacle nor full.
unfoldable first_vacant :
    (obstacles : List Coordinate)
    → Occupancy
    → (cell_capacity : ℕ) → List Coordinate
    → Option Coordinate
first_vacant obstacles occupancy cell_capacity [] = none
first_vacant obstacles occupancy cell_capacity (cell ∷ cells) =
    let rest = first_vacant obstacles occupancy cell_capacity cells in
    if mem_cell cell obstacles || leb cell_capacity (occupancy_at occupancy cell)
    then rest
    else some cell

abbrev less_occupied : Occupancy → Coordinate → Coordinate → Bool
less_occupied occupancy a b = leb (occupancy_at occupancy a) (occupancy_at occupancy b)

unfoldable vacate_core_step :
    Coordinate
    → (worker_index : ℕ) → (obstacles : List Coordinate) → Occupancy
    → (cell_capacity : ℕ) → Result (Option Coordinate)
vacate_core_step core worker_index obstacles occupancy cell_capacity = do
  candidates ← steps_of core (cardinal_from (worker_index % 4))
  ok (first_vacant obstacles occupancy cell_capacity (sort_by (less_occupied occupancy) candidates))

-- `path[1]`, if there are two cells, of a path that has been found.
abbrev second_cell : Result (List Coordinate) → Result (Option Coordinate)
second_cell (ok (_ ∷ next ∷ _)) = ok (some next)
second_cell (ok _) = ok none
second_cell (raise unreachable_error) = ok none
second_cell (raise search_limit_exceeded) = ok none
second_cell (raise e) = raise e

-- `TS_COMPATIBLE_SEARCH_LIMITS`
abbrev compatible_limits : SearchLimits
compatible_limits = record { node_budget = 4096; search_radius = 24 }

unfoldable first_step_toward :
    (start target : Coordinate) → (blocked_cells : List Coordinate) → Result (Option Coordinate)
first_step_toward start target blocked_cells = do
  grid ← navigation_grid [] blocked_cells none
  second_cell (shortest_path grid start target allow (some compatible_limits))

-- `sum(unit_price(WORKER, population + offset) for offset in range(n))`
unfoldable stage_cost : RulesVersion → (n population : ℕ) → Result ℕ
stage_cost version zero population = ok 0
stage_cost version (suc n) population = do
  price ← unit_price worker (pos population) version
  rest ← stage_cost version n (suc population)
  ok (price + rest)

unfoldable worker_expansion_threshold :
    (worker_count worker_target resource_capacity population : ℕ)
    → RulesVersion
    → (base_worker_target core_resource_reserve late_expansion_reserve : ℕ) → Result ℕ
worker_expansion_threshold worker_count worker_target resource_capacity population version
      base_worker_target core_resource_reserve late_expansion_reserve =
    do
      next_worker_cost ← unit_price worker (pos population) version
      let stages = (worker_count - base_worker_target) / 2
      let stage_target = min worker_target (base_worker_target + 2 * (stages + 1))
      if ltb worker_count base_worker_target
          then ok (min (core_resource_reserve + next_worker_cost) resource_capacity)
          else (stage_cost version (max 1 (stage_target - worker_count)) population >>= λ cost.
              ok (late_expansion_reserve + cost))

pub record HomeRoute : Type 0 where
  pub next_step : Option Coordinate
  pub target : Coordinate

-- The neighbours of the Core that are not blocked.
unfoldable drop_off_cells :
    (core : Coordinate)
    → (terrain_blocked : List Coordinate) → List Direction
    → Result (List Coordinate)
drop_off_cells core terrain_blocked [] = ok []
drop_off_cells core terrain_blocked (direction ∷ directions) = do
  cell ← step core direction (pos 1)
  cells ← drop_off_cells core terrain_blocked directions
  ok (if mem_cell cell terrain_blocked then cells else cell ∷ cells)

-- `min(targets, key=...)`: the first of the nearest cells, of the best so far and the others.
unfoldable nearest_to : (position best : Coordinate) → List Coordinate → Coordinate
nearest_to position best [] = best
nearest_to position best (cell ∷ cells) =
    nearest_to position
      (if ltb (manhattan position cell) (manhattan position best) then cell else best) cells

abbrev home_route :
    (position core : Coordinate)
    → (terrain_blocked : List Coordinate) → List Coordinate
    → Result HomeRoute
home_route position core terrain_blocked [] = ok (record { next_step = none; target = core })
home_route position core terrain_blocked (cell ∷ cells) =
    let target = nearest_to position cell cells in
    if eq_coordinate position target
    then ok (record { next_step = none; target = target })
    else (first_step_toward position target (terrain_blocked ++ core ∷ []) >>= λ next.
        ok (record { next_step = next; target = target }))

unfoldable ignore_occupancy_home_step :
    (position core : Coordinate) → (terrain_blocked : List Coordinate) → Result HomeRoute
ignore_occupancy_home_step position core terrain_blocked =
    drop_off_cells core terrain_blocked (east ∷ west ∷ south ∷ north ∷ []) >>= λ targets.
    home_route position core terrain_blocked targets
