-- ===== src/Strategies/MovementGuard.antt =====
-- strategies/movement_guard.py: the guards against units that block each other, walk in circles, or do
-- not get home with their cargo. A state is a record, each operation gives the next one; keyword
-- arguments are arguments, checked where the source checks them.
mod Backoff
mod Trail
mod Home
mod Deposit
mod Preference
mod Escape
mod Tests
use Prim.Native.Nat.{◌/◌}
use arena_hero_agent.Prelude.{
  ℕ, suc, ◌+◌, ◌-◌, max, Bool, true, false, ◌&&◌, ◌||◌, not, Option, none, some, List, [], ◌∷◌,
  ◌++◌, length, drop, ltb, leb, ◌==◌, if◌then◌else◌,
}
use arena_hero_agent.Prelude.Int.{ℤ, pos, negsuc, pos_part, nat_abs, ◌+ℤ◌, ◌-ℤ◌, ltb_ℤ, leb_ℤ, eq_ℤ}
use arena_hero_agent.Prelude.Exceptions.{Result, ok, raise, value_error, ◌>>=◌, ◌>>◌, raise_if}
use arena_hero_agent.Domain.ValueObjects.{
  Coordinate, eq_coordinate, neighbors, step, Direction, north, east, south, west, opposite,
}
use arena_hero_agent.Domain.Navigation.{mem_cell, manhattan}

-- `_positive_int` and `_non_negative_int`
abbrev pub positive_int : ℤ → Result ℕ
positive_int value = do raise_if (ltb_ℤ value (pos 1)) value_error; ok (pos_part value)

abbrev non_negative_int : ℤ → Result ℕ
non_negative_int value = do raise_if (ltb_ℤ value (pos 0)) value_error; ok (pos_part value)

pub record MoveBackoffState : Type 0 where
  pub fail_streak : ℕ
  pub pause_until_tick : ℤ

-- `MoveBackoffState()`
abbrev no_backoff : MoveBackoffState
no_backoff = record { fail_streak = 0; pause_until_tick = negsuc 0 }

abbrev or_no_backoff : Option MoveBackoffState → MoveBackoffState
or_no_backoff none = no_backoff
or_no_backoff (some state) = state

unfoldable update_move_backoff :
    Option MoveBackoffState
    → (tick : ℤ) → (moved blocked : Bool) → (blocked_streak pause_ticks : ℤ)
    → Result MoveBackoffState
update_move_backoff state tick moved blocked blocked_streak pause_ticks = do
  let current = or_no_backoff state
  streak ← positive_int blocked_streak
  pause ← positive_int pause_ticks
  now ← non_negative_int tick
  ok (
      if moved
      then no_backoff
      else if blocked
      then (if leb streak (suc current.fail_streak)
          then record {
            fail_streak = suc current.fail_streak;
            pause_until_tick = pos (now + pause);
          }
          else record {
            fail_streak = suc current.fail_streak;
            pause_until_tick = current.pause_until_tick;
          })
      else current)

abbrev pauses_at : Option MoveBackoffState → ℤ → Bool
pauses_at none tick = false
pauses_at (some state) tick = ltb_ℤ tick state.pause_until_tick

unfoldable should_pause_move : Option MoveBackoffState → (tick : ℤ) → Result Bool
should_pause_move state tick = do non_negative_int tick; ok (pauses_at state tick)

pub record LoopTrail : Type 0 where
  pub history : List Coordinate
  pub static_ticks : ℕ
  pub last_pos : Option Coordinate
  pub cooldown : ℕ
  pub repath_side : ℤ
  pub last_repath_tick : ℤ

-- `xs[-n:]` for a positive n
abbrev pub last_cells : ℕ → List Coordinate → List Coordinate
last_cells n xs = drop (length xs - n) xs

-- `last_pos is not None and last_pos == position`
abbrev stays : Option Coordinate → Coordinate → Bool
stays none position = false
stays (some last) position = eq_coordinate last position

unfoldable observe_loop_position : LoopTrail → Coordinate → (window : ℤ) → Result LoopTrail
observe_loop_position trail position window = do
  w ← positive_int window
  let history = trail.history ++ position ∷ []
  ok (record {
    history = if ltb w (length history) then last_cells w history else history;
    static_ticks = if stays trail.last_pos position then suc trail.static_ticks else 1;
    last_pos = some position;
    cooldown = if ltb 0 trail.cooldown then trail.cooldown - 1 else 0;
    repath_side = trail.repath_side;
    last_repath_tick = trail.last_repath_tick;
  })

-- The larger and the smaller of two integers.
abbrev max_ℤ : ℤ → ℤ → ℤ
max_ℤ a b = if ltb_ℤ a b then b else a

abbrev min_ℤ : ℤ → ℤ → ℤ
min_ℤ a b = if ltb_ℤ b a then b else a

abbrev pub max_by : (Coordinate → ℤ) → Coordinate → List Coordinate → ℤ
max_by axis p [] = axis p
max_by axis p (q ∷ positions) = max_ℤ (axis p) (max_by axis q positions)

abbrev pub min_by : (Coordinate → ℤ) → Coordinate → List Coordinate → ℤ
min_by axis p [] = axis p
min_by axis p (q ∷ positions) = min_ℤ (axis p) (min_by axis q positions)

unfoldable footprint_diameter : List Coordinate → ℤ
footprint_diameter [] = pos 0
footprint_diameter (p ∷ positions) =
    (max_by (λ c. c.x) p positions -ℤ min_by (λ c. c.x) p positions)
    +ℤ (max_by (λ c. c.y) p positions -ℤ min_by (λ c. c.y) p positions)

-- `len(set(cells))`
unfoldable distinct_cells : List Coordinate → ℕ
distinct_cells [] = 0
distinct_cells (c ∷ cells) =
    let rest = distinct_cells cells in if mem_cell c cells then rest else suc rest

-- `cells[-1]` of the list that begins with the cell
abbrev last_of : Coordinate → List Coordinate → Coordinate
last_of c [] = c
last_of c (d ∷ cells) = last_of d cells

-- `target is not None and len(recent) >= 3` and at least two cells nearer at its end
abbrev makes_progress : Option Coordinate → List Coordinate → Bool
makes_progress none recent = false
makes_progress (some target) [] = false
makes_progress (some target) (first ∷ rest) =
    leb 3 (length (first ∷ rest))
    && leb (manhattan (last_of first rest) target + 2) (manhattan first target)

unfoldable detect_spatial_loop :
    LoopTrail
    → (target : Option Coordinate) → (window min_unique bbox_diameter_max static_ticks : ℤ)
    → Result Bool
detect_spatial_loop trail target window min_unique bbox_diameter_max static_ticks = do
  w ← positive_int window
  unique ← positive_int min_unique
  diameter ← non_negative_int bbox_diameter_max
  static ← positive_int static_ticks
  let recent = if leb w (length trail.history) then last_cells w trail.history else trail.history
  ok (
      if ltb 0 trail.cooldown
      then false
      else if leb (max 1 static) trail.static_ticks
      then true
      else if ltb (length trail.history) (max 4 (w / 2))
      then false
      else if ltb unique (distinct_cells recent)
      then false
      else if ltb_ℤ (pos diameter) (footprint_diameter recent)
      then false
      else not (makes_progress target recent))

abbrev without : Coordinate → List Coordinate → List Coordinate
without origin [] = []
without origin (c ∷ cells) =
    let rest = without origin cells in if eq_coordinate c origin then rest else c ∷ rest

abbrev visited : List Coordinate → List Coordinate → List Coordinate
visited history [] = []
visited history (c ∷ cells) =
    let rest = visited history cells in if mem_cell c history then c ∷ rest else rest

abbrev visited_neighbors : List Coordinate → Coordinate → Result (List Coordinate)
visited_neighbors history origin = do
  (n, e, s, w) ← neighbors origin
  ok (visited history (without origin (n ∷ e ∷ s ∷ w ∷ [])))

unfoldable soft_obstacles_from_trail :
    LoopTrail
    → (origin : Coordinate) → (keep_last : ℤ) → (ban_origin_neighbors : Bool)
    → Result (List Coordinate)
soft_obstacles_from_trail trail origin keep_last ban_origin_neighbors = do
  keep ← positive_int keep_last
  banned ← (if ban_origin_neighbors then visited_neighbors trail.history origin else ok [])
  ok (without origin (last_cells keep trail.history) ++ banned)

unfoldable mark_loop_repath : LoopTrail → (tick cooldown_ticks : ℤ) → Result LoopTrail
mark_loop_repath trail tick cooldown_ticks = do
  cooldown ← positive_int cooldown_ticks
  non_negative_int tick
  ok (record {
    history = trail.history;
    static_ticks = 0;
    last_pos = trail.last_pos;
    cooldown = max 1 cooldown;
    repath_side = pos 1 -ℤ trail.repath_side;
    last_repath_tick = tick;
  })
