-- ===== src/Domain/Navigation/Metric.antt =====
-- Steps and distances: a step is invertible, moves by its length, and is found again from its ends.
use arena_hero_agent.Prelude.{ℕ, ◌+◌, ◌≡◌, ◌≢◌, refl, ◌∙◌, true, ◌&&◌, arith}
use arena_hero_agent.Prelude.Int.{
  ℤ, pos, negsuc, ◌+ℤ◌, ◌-ℤ◌, ◌*ℤ◌, pos_part, neg_part, +ℤ_parts, -ℤ_parts, eq_of_parts,
}
use arena_hero_agent.Prelude.Exceptions.{ok}
use arena_hero_agent.Domain.ValueObjects.{
  Coordinate, Direction, north, east, south, west, delta, opposite, step, in_coordinate_range,
}
use arena_hero_agent.Domain.Navigation.{manhattan, direction_to_adjacent}

-- Products with the parts of a direction.
mul_one : (k : ℤ) → pos 1 *ℤ k ≡ k
unfolding ◌*ℤ◌
mul_one k = ground arith

mul_zero : (k : ℤ) → pos 0 *ℤ k ≡ pos 0
unfolding ◌*ℤ◌
mul_zero k = ground arith

mul_negsuc : (k : ℕ) → negsuc 0 *ℤ pos k ≡ pos 0 -ℤ pos k
unfolding ◌*ℤ◌ ◌-ℤ◌
mul_negsuc k = ground arith

-- How far a step moves along one axis, for a distance that `delta` multiplies.
axis_move :
    (v w : ℤ) (k : ℕ) (s : ℤ)
    → w ≡ v +ℤ s *ℤ pos k
    → (s ≡ pos 0 → w ≡ v)
      × (s ≡ pos 1 → pos_part w + neg_part v ≡ pos_part v + neg_part w + k)
      × (s ≡ negsuc 0 → pos_part v + neg_part w ≡ pos_part w + neg_part v + k)
axis_move v w k s e = (
  λ z. e ∙ rw z (rw mul_zero (eq_of_parts _ _ (omega (arith, +ℤ_parts v (pos 0))))),
  λ z. rw e (rw z (rw mul_one (omega (arith, +ℤ_parts v (pos k))))),
  λ z.
      rw e (
        rw z
          (rw mul_negsuc (omega (arith, +ℤ_parts v (pos 0 -ℤ pos k), -ℤ_parts (pos 0) (pos k))))),
)

step-ends :
    (c : Coordinate) (d : Direction) (k : ℕ) (c' : Coordinate)
    → step c d (pos k) ≡ ok c'
    → (c'.x ≡ c.x +ℤ (delta d).0 *ℤ pos k) × (c'.y ≡ c.y +ℤ (delta d).1 *ℤ pos k)
unfolding step
step-ends c d k c' e = ground arith

-- What a step does to the two coordinates.
abbrev Ahead : ℕ → ℤ → ℤ → Type 0
Ahead k v w = pos_part w + neg_part v ≡ pos_part v + neg_part w + k

abbrev Moved : Direction → ℕ → Coordinate → Coordinate → Type 0
Moved north k c c' = (c'.x ≡ c.x) × Ahead k c'.y c.y
Moved east k c c' = Ahead k c.x c'.x × (c'.y ≡ c.y)
Moved south k c c' = (c'.x ≡ c.x) × Ahead k c.y c'.y
Moved west k c c' = Ahead k c'.x c.x × (c'.y ≡ c.y)

step-Moved :
    (c : Coordinate) (d : Direction) (k : ℕ) (c' : Coordinate)
    → step c d (pos k) ≡ ok c'
    → Moved d k c c'
step-Moved c d k c' e =
    let (ex, ey) = step-ends c d k c' e in
    by_axis d (axis_move c.x c'.x k (delta d).0 ex) (axis_move c.y c'.y k (delta d).1 ey)
  where
    by_axis :
        (d' : Direction)
        → ((delta d').0 ≡ pos 0 → c'.x ≡ c.x)
          × ((delta d').0 ≡ pos 1 → Ahead k c.x c'.x)
          × ((delta d').0 ≡ negsuc 0 → Ahead k c'.x c.x)
        → ((delta d').1 ≡ pos 0 → c'.y ≡ c.y)
          × ((delta d').1 ≡ pos 1 → Ahead k c.y c'.y)
          × ((delta d').1 ≡ negsuc 0 → Ahead k c'.y c.y)
        → Moved d' k c c'
    by_axis north hx hy = (hx.0 refl, hy.2 refl)
    by_axis east hx hy = (hx.1 refl, hy.0 refl)
    by_axis south hx hy = (hx.0 refl, hy.1 refl)
    by_axis west hx hy = (hx.2 refl, hy.0 refl)

manhattan-Moved : (c c' : Coordinate) (d : Direction) (k : ℕ) → Moved d k c c' → manhattan c c' ≡ k
unfolding manhattan ◌-ℤ◌
manhattan-Moved c c' north k h = ground arith
manhattan-Moved c c' _ k h = ground arith

direction-Moved :
    (c c' : Coordinate) (d : Direction) → Moved d 1 c c' → direction_to_adjacent c c' ≡ ok d
unfolding direction_to_adjacent ◌-ℤ◌
direction-Moved c c' north h = ground arith
direction-Moved c c' _ h = ground arith

opposite-Moved :
    (c c' : Coordinate) (d : Direction) (k : ℕ)
    → (in_coordinate_range c.x && in_coordinate_range c.y) ≡ true
    → Moved d k c c'
    → step c' (opposite d) (pos k) ≡ ok c
unfolding step ◌+ℤ◌ ◌*ℤ◌
opposite-Moved c c' north k valid h = ground arith
opposite-Moved c c' _ k valid h = ground arith

-- A step of length 1 leaves the cell.
pub step_leaves :
    (c : Coordinate) (d : Direction) (c' : Coordinate) → step c d (pos 1) ≡ ok c' → c' ≢ c
step_leaves c d c' e same = by_direction d (step-Moved c d 1 c' e)
  where
    by_direction : (d' : Direction) → Moved d' 1 c c' → ⊥
    by_direction north h = ground arith
    by_direction east h = ground arith
    by_direction south h = ground arith
    by_direction west h = ground arith

-- From a coordinate in the 32-bit range, a step of length k that stays in the range moves by the
-- Manhattan distance k, and the step of length k in the opposite direction leads back.
pub step_round_trip :
    (c : Coordinate) (d : Direction) (k : ℕ) (c' : Coordinate)
    → (in_coordinate_range c.x && in_coordinate_range c.y) ≡ true
    → step c d (pos k) ≡ ok c'
    → (manhattan c c' ≡ k) × (step c' (opposite d) (pos k) ≡ ok c)
step_round_trip c d k c' valid e =
    let h = step-Moved c d k c' e in (manhattan-Moved c c' d k h, opposite-Moved c c' d k valid h)

-- The direction between neighbours is the direction of the step from one to the other.
pub direction_to_adjacent_lem :
    (c : Coordinate) (d : Direction) (c' : Coordinate)
    → step c d (pos 1) ≡ ok c'
    → direction_to_adjacent c c' ≡ ok d
direction_to_adjacent_lem c d c' e = direction-Moved c c' d (step-Moved c d 1 c' e)
