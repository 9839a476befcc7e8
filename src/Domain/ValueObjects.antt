-- ===== src/Domain/ValueObjects.antt =====
-- domain/value_objects.py: the revision numbers, fencing tokens and execution budgets, and the
-- signed 32-bit coordinates. An int that the class checks to be non-negative is a natural number.
use arena_hero_agent.Prelude.{
  ℕ, ◌+◌, ◌-◌, ◌≡◌, ◌↔◌, String, Bool, true, ◌&&◌, not, ltb, ◌==◌, if◌then◌else◌, arith,
}
use arena_hero_agent.Prelude.Int.{
  ℤ, pos, negsuc, ◌+ℤ◌, ◌*ℤ◌, leb_ℤ, ltb_ℤ, eq_ℤ, pos_part, eq_of_parts,
}
use arena_hero_agent.Prelude.Exceptions.{Result, ok, raise, value_error, ◌>>=◌, ◌>>◌, raise_if}

-- The identifiers are only compared, so each is its text.
abbrev pub TenantId : Type 0
TenantId = String

abbrev pub DecisionId : Type 0
DecisionId = String

pub record Generation : Type 0 where
  pub value : ℕ

pub record FencingToken : Type 0 where
  pub value : ℕ

pub record DeadlineBudget : Type 0 where
  pub nanoseconds : ℕ

-- `Generation.next`
abbrev pub next_generation : Generation → Generation
next_generation g = record { value = g.value + 1 }

-- `FencingToken(value)`
abbrev pub fencing_token : ℕ → Result FencingToken
fencing_token value = if ltb value 1 then raise value_error else ok (record { value = value })

-- `FencingToken.supersedes`
abbrev pub supersedes : FencingToken → FencingToken → Bool
supersedes token other = ltb other.value token.value

-- `DeadlineBudget.consume`
pub consume : DeadlineBudget → (elapsed_nanoseconds : ℤ) → Result DeadlineBudget
consume budget elapsed =
    if ltb_ℤ elapsed (pos 0)
    then raise value_error
    else ok (record { nanoseconds = budget.nanoseconds - pos_part elapsed })

-- `DeadlineBudget.exhausted`
abbrev pub exhausted : DeadlineBudget → Bool
exhausted budget = budget.nanoseconds == 0

-- `_COORDINATE_MIN` and `_COORDINATE_MAX`: -2^31 and 2^31 - 1.
abbrev pub coordinate_min : ℤ
coordinate_min = negsuc 2147483647

abbrev pub coordinate_max : ℤ
coordinate_max = pos 2147483647

pub record Coordinate : Type 0 where
  pub x : ℤ
  pub y : ℤ

abbrev pub in_coordinate_range : ℤ → Bool
in_coordinate_range v = leb_ℤ coordinate_min v && leb_ℤ v coordinate_max

-- `Coordinate(x, y)`, with the range checks of `__post_init__`
unfoldable pub coordinate : ℤ → ℤ → Result Coordinate
coordinate x y = do
  raise_if (not (in_coordinate_range x)) value_error
  raise_if (not (in_coordinate_range y)) value_error
  ok (record { x = x; y = y })

-- The `==` that the dataclass derives.
unfoldable pub eq_coordinate : Coordinate → Coordinate → Bool
eq_coordinate a b = eq_ℤ a.x b.x && eq_ℤ a.y b.y

pub eq_coordinate_iff : (a b : Coordinate) → (eq_coordinate a b ≡ true) ↔ (a ≡ b)
unfolding eq_coordinate
eq_coordinate_iff a b = ground (arith, eq_of_parts a.x b.x, eq_of_parts a.y b.y)

pub data Direction : Type 0 where
  north east south west : Direction

-- `Direction.delta`
abbrev pub delta : Direction → ℤ × ℤ
delta north = (pos 0, negsuc 0)
delta east = (pos 1, pos 0)
delta south = (pos 0, pos 1)
delta west = (negsuc 0, pos 0)

-- `Direction.opposite`
abbrev pub opposite : Direction → Direction
opposite north = south
opposite east = west
opposite south = north
opposite west = east

-- `Coordinate.step`
unfoldable pub step : Coordinate → Direction → (distance : ℤ) → Result Coordinate
unfolding coordinate
step c direction steps = do
  raise_if (ltb_ℤ steps (pos 0)) value_error
  coordinate (c.x +ℤ (delta direction).0 *ℤ steps) (c.y +ℤ (delta direction).1 *ℤ steps)

-- `Coordinate.neighbors`: north, east, south, west
pub neighbors : Coordinate → Result (Coordinate × Coordinate × Coordinate × Coordinate)
neighbors c = do
  n ← step c north (pos 1)
  e ← step c east (pos 1)
  s ← step c south (pos 1)
  w ← step c west (pos 1)
  ok (n, e, s, w)
