-- ===== src/Strategies/StuckGuard/Box.antt =====
-- strategies/stuck_guard.py: the box that `positions_stuck` measures.
use mathlib.Core.Path.{subst}
use arena_hero_agent.Prelude.{
  ℕ, ◌+◌, ◌≤◌, ◌≡◌, ◌↔◌, refl, sym, true, List, [], ◌∷◌, All, inl, inr, arith, Bool-cases,
}
use arena_hero_agent.Prelude.Int.{
  ℤ, pos, pos_part, neg_part, ◌+ℤ◌, ◌-ℤ◌, +ℤ_parts, -ℤ_parts, ◌≤ℤ◌, leb_ℤ,
}
use arena_hero_agent.Domain.ValueObjects.{Coordinate, eq_coordinate_iff}
use arena_hero_agent.Strategies.MovementGuard.{max_by, min_by}
use arena_hero_agent.Strategies.StuckGuard.{all_equal, positions_stuck}

module _ (axis : Coordinate → ℤ) where
  -- The value of each of the positions is at most the bound, or at least.
  abbrev Below : ℤ → Coordinate → Type 0
  Below bound p = axis p ≤ℤ bound

  abbrev Above : ℤ → Coordinate → Type 0
  Above bound p = bound ≤ℤ axis p

  max_by_iff :
      (p : Coordinate) (positions : List Coordinate) (bound : ℤ)
      → (max_by axis p positions ≤ℤ bound) ↔ All (Below bound) (p ∷ positions)
  max_by_iff p [] bound = ground arith
  max_by_iff p (q ∷ positions) bound = ground (arith, max_by_iff q positions bound)

  min_by_iff :
      (p : Coordinate) (positions : List Coordinate) (bound : ℤ)
      → (bound ≤ℤ min_by axis p positions) ↔ All (Above bound) (p ∷ positions)
  min_by_iff p [] bound = ground arith
  min_by_iff p (q ∷ positions) bound = ground (arith, min_by_iff q positions bound)

  -- From the lower end of an interval to `k` above it.
  abbrev pub Within : (lower : ℤ) → ℕ → Coordinate → Type 0
  Within lower k p =
      (lower ≤ℤ axis p)
      × (pos_part (axis p) + neg_part lower ≤ k + (pos_part lower + neg_part (axis p)))

  Within-All :
      (k : ℕ) (lower upper : ℤ) (cells : List Coordinate)
      → pos_part upper + neg_part lower ≤ k + (pos_part lower + neg_part upper)
      → All (Below upper) cells
      → All (Above lower) cells
      → All (Within lower k) cells
  Within-All k lower upper [] short below above = tt
  Within-All k lower upper (c ∷ cells) short (b, below) (a, above) =
      ((a, omega arith), Within-All k lower upper cells short below above)

  Below-All :
      (k : ℕ) (lower : ℤ) (cells : List Coordinate)
      → All (Within lower k) cells
      → All (Below (lower +ℤ pos k)) cells × All (Above lower) cells
  Below-All k lower [] all = (tt, tt)
  Below-All k lower (c ∷ cells) ((a, b), all) =
      let (below, above) = Below-All k lower cells all in
      ((omega (arith, +ℤ_parts lower (pos k)), below), (a, above))

  -- The interval that holds all positions, if it is not too long.
  IsShort-Within :
      (k : ℕ) (p : Coordinate) (positions : List Coordinate)
      → leb_ℤ (max_by axis p positions -ℤ min_by axis p positions) (pos k) ≡ true
      → (lower : ℤ) × All (Within lower k) (p ∷ positions)
  IsShort-Within k p positions h =
      let upper = max_by axis p positions in
      let lower = min_by axis p positions in
      (
        lower,
        Within-All k lower upper (p ∷ positions) (ground (arith, -ℤ_parts upper lower))
            ((max_by_iff p positions upper).0 (omega arith))
            ((min_by_iff p positions lower).0 (omega arith)),
      )

  Within-IsShort :
      (k : ℕ) (p : Coordinate) (positions : List Coordinate) (lower : ℤ)
      → All (Within lower k) (p ∷ positions)
      → leb_ℤ (max_by axis p positions -ℤ min_by axis p positions) (pos k) ≡ true
  Within-IsShort k p positions lower all =
      let upper = lower +ℤ pos k in
      let (below, above) = Below-All k lower (p ∷ positions) all in
      let top = (max_by_iff p positions upper).1 below in
      let bottom = (min_by_iff p positions lower).1 above in
      ground (
        arith,
        +ℤ_parts lower (pos k),
        -ℤ_parts (max_by axis p positions) (min_by axis p positions),
      )

  all_equal-Within :
      (k : ℕ) (p : Coordinate) (cells : List Coordinate)
      → all_equal p cells ≡ true
      → All (Within (axis p) k) cells
  unfolding all_equal
  all_equal-Within k p [] h = tt
  all_equal-Within k p (c ∷ cells) h =
      let same : p ≡ c = sym ((eq_coordinate_iff c p).0 (ground arith)) in
      (
        subst (Within (axis p) k) same (omega arith, omega arith),
        all_equal-Within k p cells (ground arith),
      )

-- Positions count as stuck just if there is some box of `k` cells per axis, beyond its lowest corner,
-- that holds all of them; there must be one position at least.
pub positions_stuck_lem :
    (k : ℕ) (p : Coordinate) (positions : List Coordinate)
    → (positions_stuck (p ∷ positions) k ≡ true) ↔ (
        ((x : ℤ) × All (Within (λ c. c.x) x k) (p ∷ positions))
        × ((y : ℤ) × All (Within (λ c. c.y) y k) (p ∷ positions)))
unfolding positions_stuck
positions_stuck_lem k p positions = elim (Bool-cases (all_equal p (p ∷ positions))) [
  | inl same ↦ rw same (
    λ _. (
      (p.x, all_equal-Within (λ c. c.x) k p (p ∷ positions) same),
      (p.y, all_equal-Within (λ c. c.y) k p (p ∷ positions) same),
    ),
    λ _. refl,
  )
  | inr other ↦ rw other (
    λ h. (
      IsShort-Within (λ c. c.x) k p positions (ground arith),
      IsShort-Within (λ c. c.y) k p positions (ground arith),
    ),
    λ ((x, xs), (y, ys)). rw (
      Within-IsShort (λ c. c.x) k p positions x xs,
      Within-IsShort (λ c. c.y) k p positions y ys,
    ),
  )
]
