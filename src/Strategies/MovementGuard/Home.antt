-- ===== src/Strategies/MovementGuard/Home.antt =====
-- strategies/movement_guard.py: the progress of a unit on its way home, its forced side step, and the
-- hint that the Core should come to it.
use arena_hero_agent.Prelude.{
  ℕ, suc, ◌+◌, ◌-◌, Bool, true, false, ◌&&◌, ◌||◌, not, Option, none, some, List, [], ◌∷◌, ◌++◌,
  length, ltb, leb, ◌==◌, if◌then◌else◌,
}
use arena_hero_agent.Prelude.Int.{ℤ, pos, nat_abs, ◌-ℤ◌, ltb_ℤ, eq_ℤ}
use arena_hero_agent.Prelude.Exceptions.{Result, ok, ◌>>=◌}
use arena_hero_agent.Domain.ValueObjects.{
  Coordinate, eq_coordinate, step, Direction, north, east, south, west, opposite,
}
use arena_hero_agent.Domain.Navigation.{mem_cell, manhattan}
use arena_hero_agent.Strategies.MovementGuard.{
  positive_int, non_negative_int, last_cells, distinct_cells, last_of,
}

pub record DepositProgress : Type 0 where
  pub best_manhattan : ℕ
  pub last_improve_tick : ℕ
  pub repath_streak : ℕ

abbrev pub refreshed : DepositProgress → (distance tick : ℕ) → DepositProgress
refreshed state distance tick =
    if ltb distance state.best_manhattan
    then record { best_manhattan = distance; last_improve_tick = tick; repath_streak = 0 }
    else if ltb (state.best_manhattan + 2) distance
    then record state { best_manhattan = distance; last_improve_tick = tick }
    else state

unfoldable pub refresh_deposit_progress :
    Option DepositProgress → (manhattan_to_core tick : ℤ) → Result DepositProgress
refresh_deposit_progress state manhattan_to_core tick = do
  distance ← non_negative_int manhattan_to_core
  now ← non_negative_int tick
  ok (elim state [
    | none ↦ record { best_manhattan = distance; last_improve_tick = now; repath_streak = 0 }
    | some progress ↦ refreshed progress distance now
  ])

unfoldable pub deposit_escape_needed :
    DepositProgress → (tick stall_ticks repath_streak_limit : ℤ) → Result Bool
deposit_escape_needed state tick stall_ticks repath_streak_limit = do
  stall ← positive_int stall_ticks
  limit ← positive_int repath_streak_limit
  now ← non_negative_int tick
  let stalled = if leb state.last_improve_tick now then now - state.last_improve_tick else 0
  ok (leb stall stalled || leb limit state.repath_streak)

unfoldable pub record_deposit_repath : DepositProgress → (repathed : Bool) → DepositProgress
record_deposit_repath state repathed = record state {
  repath_streak = if repathed then suc state.repath_streak else state.repath_streak - 1;
}

-- The axis on which the target is farther off, if there is one.
unfoldable pub primary_direction : (dx dy : ℤ) → Option Direction
primary_direction dx dy =
    if not (eq_ℤ dx (pos 0)) && leb (nat_abs dy) (nat_abs dx)
    then some (if ltb_ℤ (pos 0) dx then east else west)
    else if not (eq_ℤ dy (pos 0))
    then some (if ltb_ℤ (pos 0) dy then south else north)
    else none

abbrev pub perpendicular : Option Direction → (even_side : Bool) → List Direction
perpendicular none _ = east ∷ west ∷ south ∷ north ∷ []
perpendicular (some north) true = east ∷ west ∷ []
perpendicular (some north) false = west ∷ east ∷ []
perpendicular (some south) true = east ∷ west ∷ []
perpendicular (some south) false = west ∷ east ∷ []
perpendicular (some east) true = south ∷ north ∷ []
perpendicular (some east) false = north ∷ south ∷ []
perpendicular (some west) true = south ∷ north ∷ []
perpendicular (some west) false = north ∷ south ∷ []

abbrev pub direction_code : Direction → ℕ
direction_code north = 0
direction_code east = 1
direction_code south = 2
direction_code west = 3

abbrev pub mem_direction : Direction → List Direction → Bool
mem_direction d [] = false
mem_direction d (e ∷ directions) =
    (direction_code d == direction_code e) || mem_direction d directions

-- `if direction not in prefer: prefer.append(direction)`, for each of the directions
abbrev pub append_new : List Direction → List Direction → List Direction
append_new prefer [] = prefer
append_new prefer (d ∷ directions) =
    append_new (if mem_direction d prefer then prefer else prefer ++ d ∷ []) directions

abbrev pub with_opposite : Option Direction → List Direction
with_opposite none = []
with_opposite (some d) = d ∷ opposite d ∷ []

unfoldable pub preferred : Option Direction → (even_side : Bool) → List Direction
preferred primary even_side =
    append_new (append_new (perpendicular primary even_side) (with_opposite primary))
      (east ∷ west ∷ south ∷ north ∷ [])

-- The key of a step: whether it leads farther away, whether it is not perpendicular, the distance.
abbrev pub Key : Type 0
Key = ℕ × ℕ × ℕ

abbrev pub key_less : Key → Key → Bool
key_less (a, b, c) (d, e, f) = ltb a d || (a == d && (ltb b e || (b == e && ltb c f)))

abbrev pub improves : Key → Option (Direction × Key) → Bool
improves key none = true
improves key (some (_, best_key)) = key_less key best_key

module _ (origin target : Coordinate) (obstacles : List Coordinate) (perps : List Direction) where
  abbrev pub step_key : Direction → Coordinate → Key
  step_key direction next = (
    if ltb (manhattan origin target) (manhattan next target) then 1 else 0,
    if mem_direction direction perps then 0 else 1,
    manhattan next target,
  )

  -- One round of the loop; the best direction and its key are one option.
  abbrev pub consider_step :
      Option (Direction × Key) → Direction → Coordinate → Option (Direction × Key)
  consider_step best direction next =
      if mem_cell next obstacles
      then best
      else if improves (step_key direction next) best
      then some (direction, step_key direction next)
      else best

  unfoldable pub choose_step :
      Option (Direction × Key) → List Direction → Result (Option (Direction × Key))
  choose_step best [] = ok best
  choose_step best (direction ∷ prefer) = do
    next ← step origin direction (pos 1)
    choose_step (consider_step best direction next) prefer

abbrev pub direction_of : Option (Direction × Key) → Option Direction
direction_of none = none
direction_of (some (direction, _)) = some direction

-- `repath_side` counts by its parity alone.
unfoldable pub forced_escape_step :
    (origin target : Coordinate) (obstacles : List Coordinate) (even_side : Bool)
    → Result (Option Direction)
forced_escape_step origin target obstacles even_side =
    if eq_coordinate origin target
    then ok none
    else let primary = primary_direction (target.x -ℤ origin.x) (target.y -ℤ origin.y) in
      choose_step origin target obstacles (perpendicular primary even_side) none
        (preferred primary even_side)
      >>= λ best. ok (direction_of best)

unfoldable pub cargo_spin_self_heal :
    List Coordinate
    → (cargo : ℤ) → (core_position : Coordinate)
    → (spin_ticks spin_budget core_distance_threshold : ℤ) → Result Bool
cargo_spin_self_heal positions cargo core_position spin_ticks spin_budget core_distance_threshold =
    do
      ticks ← positive_int spin_ticks
      budget ← positive_int spin_budget
      threshold ← positive_int core_distance_threshold
      carried ← non_negative_int cargo
      let recent = last_cells ticks positions
      ok (
          ltb 0 carried
          && not (ltb (length recent) ticks)
          && not (ltb budget (distinct_cells recent))
          && elim recent [
            | [] ↦ false
            | c ∷ cells ↦ ltb threshold (manhattan core_position (last_of c cells))
          ])
