-- ===== src/Domain/Navigation/Search/Tests.antt =====
-- The search on small grids, and the theorems at them.
use arena_hero_agent.Prelude.{ℕ, ◌≡◌, ◌⊎◌, refl, true, false, none, some, List, [], ◌∷◌}
use arena_hero_agent.Prelude.Int.{pos, ◌+ℤ◌, ◌-ℤ◌, ◌*ℤ◌}
use arena_hero_agent.Prelude.Exceptions.{
  ok, raise, unreachable_error, value_error, search_limit_exceeded,
}
use arena_hero_agent.Domain.ValueObjects.{Coordinate}
use arena_hero_agent.Domain.Navigation.{NavigationGrid, SearchLimits, block, allow}
use arena_hero_agent.Domain.Navigation.Search.{shortest_path, is_reachable}
use arena_hero_agent.Domain.Navigation.Search.Paths.{IsPath}
use arena_hero_agent.Domain.Navigation.Search.Reachability.{
  Outcome, shortest_path-Outcome, is_reachable_decides,
}

abbrev at : ℕ → ℕ → Coordinate
at x y = record { x = pos x; y = pos y }

-- A wall with a way round it.
abbrev walled : NavigationGrid
walled = record {
  open_cells = at 0 0 ∷ at 0 1 ∷ at 1 1 ∷ at 2 1 ∷ at 2 0 ∷ [];
  blocked_cells = at 1 0 ∷ [];
  bounds = none;
}

abbrev way_round : List Coordinate
way_round = at 0 0 ∷ at 0 1 ∷ at 1 1 ∷ at 2 1 ∷ at 2 0 ∷ []

detour : shortest_path walled (at 0 0) (at 2 0) block none ≡ ok way_round
unfolding shortest_path ◌+ℤ◌ ◌-ℤ◌ ◌*ℤ◌
detour = refl

-- The same cells, with the end of the way cut off by bounds that the search stays within.
abbrev fenced : NavigationGrid
fenced = record {
  open_cells = at 0 0 ∷ [];
  blocked_cells = at 1 0 ∷ at 0 1 ∷ at 1 1 ∷ [];
  bounds = some (record { min_x = pos 0; max_x = pos 2; min_y = pos 0; max_y = pos 1 });
}

abbrev limits : ℕ → ℕ → SearchLimits
limits budget radius = record { node_budget = budget; search_radius = radius }

failures :
    (shortest_path fenced (at 0 0) (at 2 0) allow none ≡ raise unreachable_error)
    × (shortest_path walled (at 0 0) (at 2 0) allow none ≡ raise value_error)
    × (shortest_path walled (at 0 0) (at 2 0) block (some (limits 3 9))
        ≡ raise search_limit_exceeded)
unfolding shortest_path ◌+ℤ◌ ◌-ℤ◌ ◌*ℤ◌
failures = (refl, refl, refl)

shortest_path-Outcome_example :
    Outcome walled block none (at 0 0) (at 2 0) (shortest_path walled (at 0 0) (at 2 0) block none)
shortest_path-Outcome_example = shortest_path-Outcome walled block none (at 0 0) (at 2 0)

is_reachable_decides_example :
    (is_reachable fenced (at 0 0) (at 2 0) allow none ≡ ok true)
      × ((path : List Coordinate) × IsPath fenced allow (at 0 0) (at 2 0) path)
    ⊎ (is_reachable fenced (at 0 0) (at 2 0) allow none ≡ ok false)
      × ((path : List Coordinate) → ¬ IsPath fenced allow (at 0 0) (at 2 0) path)
is_reachable_decides_example = is_reachable_decides fenced allow (at 0 0) (at 2 0) refl
