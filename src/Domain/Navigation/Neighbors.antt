-- ===== src/Domain/Navigation/Neighbors.antt =====
-- The candidate neighbours of a cell are the cells one step away, whatever the target.
use arena_hero_agent.Prelude.{
  ◌≡◌, refl, true, ◌||◌, List, [], ◌∷◌, ◌++◌, arith, Bool-cases, inl, inr,
}
use arena_hero_agent.Prelude.Int.{pos}
use arena_hero_agent.Prelude.Exceptions.{Result, ok, raise}
use arena_hero_agent.Domain.ValueObjects.{Coordinate, Direction, step, eq_coordinate_iff}
use arena_hero_agent.Domain.Navigation.{
  axis_directions, mem_cell, in_directions, extend, path_direction_order, ordered_directions,
  steps_from, candidate_neighbors, same_direction,
}

in_directions-snoc :
    (d e : Direction) (ds : List Direction)
    → in_directions d (ds ++ e ∷ []) ≡ (in_directions d ds || same_direction d e)
in_directions-snoc d e [] = ground arith
in_directions-snoc d e (x ∷ ds) = ground (arith, in_directions-snoc d e ds)

in_directions-extend_left :
    (d : Direction) (preferred ds : List Direction)
    → in_directions d preferred ≡ true
    → in_directions d (extend preferred ds) ≡ true
in_directions-extend_left d preferred [] h = h
in_directions-extend_left d preferred (e ∷ ds) h = elim (Bool-cases (in_directions e preferred)) [
  | inl old ↦ rw old (in_directions-extend_left d preferred ds h)
  | inr new ↦ rw new (
      in_directions-extend_left d (preferred ++ e ∷ []) ds
        (ground (arith, in_directions-snoc d e preferred)))
]

same_direction_eq : (d e : Direction) → same_direction d e ≡ true → d ≡ e
same_direction_eq d e h = ground arith

in_directions-extend_right :
    (d : Direction) (preferred ds : List Direction)
    → in_directions d ds ≡ true
    → in_directions d (extend preferred ds) ≡ true
in_directions-extend_right d preferred [] h = cc
in_directions-extend_right d preferred (e ∷ ds) h = elim (Bool-cases (same_direction d e)) [
  | inl same ↦
      in_directions-extend_left d _ ds
        (ground (arith, same_direction_eq d e, in_directions-snoc d e preferred))
  | inr other ↦ in_directions-extend_right d _ ds (ground arith)
]

listed : (d : Direction) → in_directions d path_direction_order ≡ true
listed d = ground arith

-- Each of the four directions is among the ordered directions.
in_directions-ordered_directions :
    (d : Direction) (origin target : Coordinate)
    → in_directions d (ordered_directions origin target) ≡ true
unfolding ordered_directions
in_directions-ordered_directions d origin target =
    in_directions-extend_right d (axis_directions origin target) path_direction_order (listed d)

abbrev pub AllSteps : Coordinate → List Coordinate → Type 0
AllSteps c [] = Unit
AllSteps c (n ∷ rest) = ((d : Direction) × (step c d (pos 1) ≡ ok n)) × AllSteps c rest

AllSteps-steps_from : (c : Coordinate) (ds : List Direction) → AllSteps c (steps_from c ds)
AllSteps-steps_from c [] = tt
AllSteps-steps_from c (d ∷ ds) = go (step c d (pos 1)) refl (AllSteps-steps_from c ds)
  where
    go :
        (r : Result Coordinate)
        → step c d (pos 1) ≡ r
        → AllSteps c (steps_from c ds)
        → AllSteps c (elim r [ ok n ↦ n ∷ steps_from c ds | raise e ↦ steps_from c ds ])
    go (ok n) e rest = ((d, e), rest)
    go (raise _) e rest = rest

mem_cell-steps_from :
    (c n : Coordinate) (d : Direction) (ds : List Direction)
    → step c d (pos 1) ≡ ok n
    → in_directions d ds ≡ true
    → mem_cell n (steps_from c ds) ≡ true
unfolding mem_cell
mem_cell-steps_from c n d [] e h = cc
mem_cell-steps_from c n d (x ∷ ds) e h =
    ground (arith, same_direction_eq d x, mem_cell-steps_from c n d ds e, eq_coordinate_iff n n)

pub candidate_neighbors-AllSteps :
    (c target : Coordinate) → AllSteps c (candidate_neighbors c target)
unfolding candidate_neighbors
candidate_neighbors-AllSteps c target = AllSteps-steps_from c (ordered_directions c target)

pub mem_cell-candidate_neighbors :
    (c n target : Coordinate) (d : Direction)
    → step c d (pos 1) ≡ ok n
    → mem_cell n (candidate_neighbors c target) ≡ true
unfolding candidate_neighbors
mem_cell-candidate_neighbors c n target d e =
    mem_cell-steps_from c n d (ordered_directions c target) e
      (in_directions-ordered_directions d c target)
