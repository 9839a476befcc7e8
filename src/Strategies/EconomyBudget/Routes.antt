-- ===== src/Strategies/EconomyBudget/Routes.antt =====
-- strategies/economy_budget.py: where a worker with a full cargo may be sent.
use mathlib.Core.Path.{subst}
use Prim.Native.Nat.{◌%◌}
use arena_hero_agent.Prelude.{
  ℕ, zero, suc, ◌+◌, ◌≡◌, ◌≢◌, ◌<◌, sym, ap, ◌∙◌, false, ◌||◌, some, List, ◌∷◌, ◌++◌, inl, inr,
  arith, Bool-cases, Option-cases,
}
use arena_hero_agent.Prelude.Sort.{sort_by}
use arena_hero_agent.Prelude.Exceptions.{ok, >>=-ok, ok-injective}
use arena_hero_agent.Domain.ValueObjects.{Coordinate, eq_coordinate, eq_coordinate_iff}
use arena_hero_agent.Domain.Navigation.{mem_cell}
use arena_hero_agent.Domain.Navigation.Metric.{step_leaves}
use arena_hero_agent.Domain.Navigation.Search.Paths.{IsAdjacent}
use arena_hero_agent.Strategies.EconomyBudget.{
  Occupancy, occupancy_at, steps_of, less_occupied, cardinal_from, vacate_core_step,
  first_step_toward,
}
use arena_hero_agent.Strategies.EconomyBudget.Dispersal.{
  FullCapacityRoute, full_cells, add, patrol_offset, route_from, full_capacity_worker_route,
}
use arena_hero_agent.Strategies.EconomyBudget.Steps.{
  first_step_toward_lem, All-sort_by, steps_of-IsAdjacent, mem_cell-append, occupancy_at_free,
  some-injective, first_vacant_lem,
}

module _ (core position : Coordinate) (worker_index : ℕ) (obstacles : List Coordinate)
    (occupancy : Occupancy) (capacity : ℕ) where
  -- A neighbour that is neither an obstacle, nor full, nor the Core.
  abbrev pub IsOpenStep : Coordinate → Type 0
  IsOpenStep c =
      IsAdjacent position c
      × (mem_cell c obstacles ≡ false)
      × (occupancy_at occupancy c < capacity)
      × (c ≢ core)

  -- What the search goes round.
  abbrev avoided : List Coordinate
  avoided = obstacles ++ core ∷ full_cells capacity occupancy

  open_step :
      (goal c : Coordinate)
      → 0 < capacity
      → first_step_toward position goal avoided ≡ ok (some c)
      → IsOpenStep c
  unfolding mem_cell
  open_step goal c positive e =
      let (adjacent, free) = first_step_toward_lem position goal avoided e in
      let split = mem_cell-append c obstacles (core ∷ full_cells capacity occupancy) in
      (
        adjacent,
        ground arith,
        occupancy_at_free capacity occupancy c positive (ground arith),
        λ same. ground (arith, eq_coordinate_iff c core),
      )

  route_from_lem :
      (remaining offset_index : ℕ) (goal : Coordinate) {r : FullCapacityRoute} {c : Coordinate}
      → 0 < capacity
      → route_from core position worker_index obstacles occupancy capacity remaining offset_index
          goal
        ≡ ok r
      → r.next_step ≡ some c
      → IsOpenStep c
  unfolding route_from
  route_from_lem zero offset_index goal positive e s = absurd (ground arith)
  route_from_lem (suc remaining) offset_index staged {r} {c} positive e s =
      let (goal, added, rest) =
        >>=-ok (add core (patrol_offset (worker_index + offset_index))) _ e in
      elim (Bool-cases (mem_cell goal obstacles || eq_coordinate goal core)) [
        | inl skipped ↦
            route_from_lem remaining (suc offset_index) staged positive (rw skipped at rest) s
        | inr tried ↦
            let tries = rw tried at rest in
            elim (Bool-cases (eq_coordinate position goal)) [
              | inl there ↦ cc
              | inr away ↦
                  let (next, stepped, last) =
                    >>=-ok (first_step_toward position goal avoided) _ (rw away at tries) in
                  elim (Option-cases next) [
                    | inl stuck ↦
                        route_from_lem remaining (suc offset_index) goal positive (rw stuck at last)
                          s
                    | inr (cell, found) ↦
                        subst IsOpenStep
                          (some-injective
                            (ap (λ r. r.next_step) (ok-injective (rw found at last)) ∙ s))
                          (open_step goal cell positive (stepped ∙ ap ok found))
                  ]
            ]
      ]

  -- Wherever a worker with a full cargo is sent, it is to a neighbouring cell that is no obstacle, has
  -- room for it, and is not the Core, from the Core as from anywhere else. The capacity of a cell is
  -- positive.
  pub full_capacity_worker_route_lem :
      {r : FullCapacityRoute} {c : Coordinate}
      → 0 < capacity
      → full_capacity_worker_route core position worker_index obstacles occupancy capacity ≡ ok r
      → r.next_step ≡ some c
      → IsOpenStep c
  unfolding full_capacity_worker_route vacate_core_step
  full_capacity_worker_route_lem {r} {c} positive e s =
      let (goal, added, rest) = >>=-ok (add core (patrol_offset worker_index)) _ e in
      elim (Bool-cases (eq_coordinate position core)) [
        | inl here ↦
            let directions = cardinal_from (worker_index % 4) in
            let (next, vacated, last) =
              >>=-ok (vacate_core_step core worker_index obstacles occupancy capacity) _
                (rw here at rest) in
            let (cells, stepped, chosen) = >>=-ok (steps_of core directions) _ vacated in
            let sorted =
              All-sort_by (IsAdjacent core) (less_occupied occupancy) cells
                (steps_of-IsAdjacent core directions stepped) in
            let at_core = (eq_coordinate_iff position core).0 here in
            let ((d, stepped_out), free, room) =
              first_vacant_lem (IsAdjacent core) obstacles occupancy capacity
                (sort_by (less_occupied occupancy) cells) sorted
                (ok-injective chosen ∙ ap (λ r. r.next_step) (ok-injective last) ∙ s) in
            (
              subst (λ p. IsAdjacent p c) (sym at_core) (d, stepped_out),
              free,
              room,
              step_leaves core d c stepped_out,
            )
        | inr elsewhere ↦ route_from_lem 8 0 goal positive (rw elsewhere at rest) s
      ]
