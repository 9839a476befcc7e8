-- ===== src/Strategies/EconomyBudget/Steps.antt =====
-- strategies/economy_budget.py: the single steps of the routes, and the room of a cell.
use mathlib.Core.Path.{subst}
use arena_hero_agent.Prelude.{
  ℕ, ◌≡◌, ◌<◌, refl, Bool, true, false, ◌||◌, none, some, List, [], ◌∷◌, ◌++◌, All, leb, inl, inr,
  arith, Bool-cases,
}
use arena_hero_agent.Prelude.Int.{pos}
use arena_hero_agent.Prelude.Sort.{sort_by, insert_sorted}
use arena_hero_agent.Prelude.Exceptions.{
  Result, ok, raise, unreachable_error, search_limit_exceeded, >>=-ok, ok-injective,
}
use arena_hero_agent.Domain.ValueObjects.{Coordinate, eq_coordinate_iff, step, Direction}
use arena_hero_agent.Domain.Navigation.{NavigationGrid, allow, mem_cell, navigation_grid, can_enter}
use arena_hero_agent.Domain.Navigation.Search.{shortest_path}
use arena_hero_agent.Domain.Navigation.Search.Paths.{IsAdjacent, IsPath}
use arena_hero_agent.Domain.Navigation.Search.Reachability.{Outcome, shortest_path-Outcome}
use arena_hero_agent.Strategies.EconomyBudget.{
  Occupancy, occupancy_at, steps_of, first_vacant, second_cell, compatible_limits,
  first_step_toward,
}
use arena_hero_agent.Strategies.EconomyBudget.Dispersal.{full_cells}

second_cell_lem :
    (r : Result (List Coordinate)) {c : Coordinate}
    → second_cell r ≡ ok (some c)
    → (a : Coordinate) × (rest : List Coordinate) × (r ≡ ok (a ∷ c ∷ rest))
second_cell_lem (ok []) e = cc
second_cell_lem (ok (a ∷ [])) e = cc
second_cell_lem (ok (a ∷ b ∷ rest)) e = (a, rest, ground arith)
second_cell_lem (raise unreachable_error) e = cc
second_cell_lem (raise search_limit_exceeded) e = cc
second_cell_lem (raise _) e = cc

navigation_grid_made :
    (cells : List Coordinate) {grid : NavigationGrid}
    → navigation_grid [] cells none ≡ ok grid
    → grid.blocked_cells ≡ cells
unfolding navigation_grid
navigation_grid_made cells e = ground arith

can_enter_free :
    (grid : NavigationGrid) (c : Coordinate)
    → can_enter grid c allow ≡ true
    → mem_cell c grid.blocked_cells ≡ false
unfolding can_enter
can_enter_free grid c h = ground arith

-- A step that is found is to a neighbour of the start that is not blocked.
pub first_step_toward_lem :
    (start target : Coordinate) (cells : List Coordinate) {c : Coordinate}
    → first_step_toward start target cells ≡ ok (some c)
    → IsAdjacent start c × (mem_cell c cells ≡ false)
unfolding first_step_toward
first_step_toward_lem start target cells {c} e =
    let (grid, made, found) = >>=-ok (navigation_grid [] cells none) _ e in
    let (a, rest, path) =
      second_cell_lem (shortest_path grid start target allow (some compatible_limits)) found in
    let (here, _, (adjacent, enter, _)) : IsPath grid allow start target (a ∷ c ∷ rest) =
      subst (Outcome grid allow (some compatible_limits) start target) path
        (shortest_path-Outcome grid allow (some compatible_limits) start target) in
    (
      subst (λ a. IsAdjacent a c) here adjacent,
      subst (λ cells. mem_cell c cells ≡ false) (navigation_grid_made cells made)
          (can_enter_free grid c enter),
    )

module _ (P : Coordinate → Type 0) (leq : Coordinate → Coordinate → Bool) where
  All-insert_sorted :
      (c : Coordinate) (cells : List Coordinate)
      → P c
      → All P cells
      → All P (insert_sorted leq c cells)
  unfolding insert_sorted
  All-insert_sorted c [] p all = (p, tt)
  All-insert_sorted c (d ∷ cells) p (q, all) = elim (Bool-cases (leq c d)) [
    | inl first ↦ rw first (p, (q, all))
    | inr later ↦ rw later (q, All-insert_sorted c cells p all)
  ]

  pub All-sort_by : (cells : List Coordinate) → All P cells → All P (sort_by leq cells)
  unfolding sort_by
  All-sort_by [] all = tt
  All-sort_by (c ∷ cells) (p, all) =
      All-insert_sorted c (sort_by leq cells) p (All-sort_by cells all)

pub steps_of-IsAdjacent :
    (core : Coordinate) (directions : List Direction) {cells : List Coordinate}
    → steps_of core directions ≡ ok cells
    → All (IsAdjacent core) cells
unfolding steps_of
steps_of-IsAdjacent core [] e = subst (All (IsAdjacent core)) (ok-injective e) tt
steps_of-IsAdjacent core (d ∷ directions) e =
    let (cell, stepped, rest) = >>=-ok (step core d (pos 1)) _ e in
    let (cells, more, made) = >>=-ok (steps_of core directions) _ rest in
    subst (All (IsAdjacent core)) (ok-injective made)
      ((d, stepped), steps_of-IsAdjacent core directions more)

pub mem_cell-append :
    (c : Coordinate) (xs ys : List Coordinate)
    → mem_cell c (xs ++ ys) ≡ (mem_cell c xs || mem_cell c ys)
unfolding mem_cell
mem_cell-append c [] ys = refl
mem_cell-append c (x ∷ xs) ys = ground (arith, mem_cell-append c xs ys)

pub occupancy_at_free :
    (capacity : ℕ) (occupancy : Occupancy) (c : Coordinate)
    → 0 < capacity
    → mem_cell c (full_cells capacity occupancy) ≡ false
    → occupancy_at occupancy c < capacity
unfolding full_cells occupancy_at mem_cell
occupancy_at_free capacity [] c positive free = positive
occupancy_at_free capacity ((d, n) ∷ occupancy) c positive free = ground (
  arith,
  eq_coordinate_iff c d,
  eq_coordinate_iff d c,
  occupancy_at_free capacity occupancy c positive,
)

pub some-injective : {a b : Coordinate} → some a ≡ some b → a ≡ b
some-injective e = cc

pub first_vacant_lem :
    (P : Coordinate → Type 0) (obstacles : List Coordinate) (occupancy : Occupancy) (capacity : ℕ)
    (cells : List Coordinate) {c : Coordinate}
    → All P cells
    → first_vacant obstacles occupancy capacity cells ≡ some c
    → P c × (mem_cell c obstacles ≡ false) × (occupancy_at occupancy c < capacity)
unfolding first_vacant
first_vacant_lem P obstacles occupancy capacity [] all e = cc
first_vacant_lem P obstacles occupancy capacity (d ∷ cells) {c} (p, all) e =
    elim (Bool-cases (mem_cell d obstacles || leb capacity (occupancy_at occupancy d))) [
      | inl taken ↦ first_vacant_lem P obstacles occupancy capacity cells all (rw taken at e)
      | inr vacant ↦
          subst (λ c. P c × (mem_cell c obstacles ≡ false) × (occupancy_at occupancy c < capacity))
            (some-injective (rw vacant at e)) (p, ground arith, ground arith)
    ]
