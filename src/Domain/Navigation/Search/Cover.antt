-- ===== src/Domain/Navigation/Search/Cover.antt =====
-- The cells that the search can enter, listed.
use arena_hero_agent.Prelude.{
  ℕ, zero, suc, ◌+◌, ◌*◌, ◌<◌, ◌≡◌, refl, Bool, true, false, ◌||◌, Option, none, some, List, [],
  ◌∷◌, ◌++◌, length, length-append, arith,
}
use arena_hero_agent.Prelude.Int.{
  ℤ, pos, ◌+ℤ◌, ◌-ℤ◌, ◌≤ℤ◌, pos_part, neg_part, eq_ℤ, +ℤ_parts, -ℤ_parts,
}
use arena_hero_agent.Domain.ValueObjects.{Coordinate, eq_coordinate}
use arena_hero_agent.Domain.Navigation.{
  UnknownTraversalPolicy, block, allow, NavigationGrid, Bounds, contains, mem_cell, can_enter,
}
use arena_hero_agent.Domain.Navigation.Search.{area, cell_count, unbounded}

-- `lo`, `lo + 1`, …: `n` integers.
span : ℤ → ℕ → List ℤ
span lo zero = []
span lo (suc n) = lo ∷ span (lo +ℤ pos 1) n

row : List ℤ → ℤ → List Coordinate
row [] y = []
row (x ∷ xs) y = record { x = x; y = y } ∷ row xs y

rows : List ℤ → List ℤ → List Coordinate
rows xs [] = []
rows xs (y ∷ ys) = row xs y ++ rows xs ys

mem_ℤ : ℤ → List ℤ → Bool
mem_ℤ v [] = false
mem_ℤ v (w ∷ ws) = eq_ℤ v w || mem_ℤ v ws

mem_cell-append :
    (c : Coordinate) (xs ys : List Coordinate)
    → mem_cell c (xs ++ ys) ≡ (mem_cell c xs || mem_cell c ys)
unfolding mem_cell
mem_cell-append c [] ys = refl
mem_cell-append c (x ∷ xs) ys = ground (arith, mem_cell-append c xs ys)

mem_ℤ-span :
    (v lo : ℤ) (n : ℕ)
    → lo ≤ℤ v
    → pos_part v + neg_part lo < pos_part lo + neg_part v + n
    → mem_ℤ v (span lo n) ≡ true
unfolding mem_ℤ span
mem_ℤ-span v lo zero low high = absurd (omega arith)
mem_ℤ-span v lo (suc n) low high = ground (arith, +ℤ_parts lo (pos 1), mem_ℤ-span v (lo +ℤ pos 1) n)

mem_cell-row : (c : Coordinate) (xs : List ℤ) → mem_ℤ c.x xs ≡ true → mem_cell c (row xs c.y) ≡ true
unfolding mem_cell mem_ℤ row eq_coordinate
mem_cell-row c [] h = cc
mem_cell-row c (x ∷ xs) h = ground (arith, mem_cell-row c xs)

mem_cell-rows :
    (c : Coordinate) (xs ys : List ℤ)
    → mem_ℤ c.x xs ≡ true
    → mem_ℤ c.y ys ≡ true
    → mem_cell c (rows xs ys) ≡ true
unfolding mem_ℤ rows
mem_cell-rows c xs [] hx hy = cc
mem_cell-rows c xs (y ∷ ys) hx hy = ground (
  arith,
  mem_cell-append c (row xs y) (rows xs ys),
  mem_cell-row c xs hx,
  mem_cell-rows c xs ys hx,
)

length-span : (lo : ℤ) (n : ℕ) → length (span lo n) ≡ n
unfolding span
length-span lo zero = refl
length-span lo (suc n) = omega (arith, length-span (lo +ℤ pos 1) n)

length-row : (xs : List ℤ) (y : ℤ) → length (row xs y) ≡ length xs
unfolding row
length-row [] y = refl
length-row (x ∷ xs) y = omega (arith, length-row xs y)

length-rows : (xs ys : List ℤ) → length (rows xs ys) ≡ length xs * length ys
unfolding rows
length-rows xs [] = omega arith
length-rows xs (y ∷ ys) =
    grind (arith, length-append (row xs y) (rows xs ys), length-row xs y, length-rows xs ys)

abbrev width : ℤ → ℤ → ℕ
width lo hi = pos_part (hi -ℤ lo +ℤ pos 1)

-- Every cell within the bounds.
box : Bounds → List Coordinate
box b = rows (span b.min_x (width b.min_x b.max_x)) (span b.min_y (width b.min_y b.max_y))

length-box : (b : Bounds) → length (box b) ≡ area b
unfolding box
length-box b = ground (
  arith,
  length-rows (span b.min_x (width b.min_x b.max_x)) (span b.min_y (width b.min_y b.max_y)),
  length-span b.min_x (width b.min_x b.max_x),
  length-span b.min_y (width b.min_y b.max_y),
)

mem_span_of_range : (v lo hi : ℤ) → lo ≤ℤ v → v ≤ℤ hi → mem_ℤ v (span lo (width lo hi)) ≡ true
mem_span_of_range v lo hi low high =
    mem_ℤ-span v lo (width lo hi) low (omega (arith, -ℤ_parts hi lo, +ℤ_parts (hi -ℤ lo) (pos 1)))

contains-box : (b : Bounds) (c : Coordinate) → contains b c ≡ true → mem_cell c (box b) ≡ true
unfolding contains box
contains-box b c h =
    mem_cell-rows c _ _ (mem_span_of_range c.x b.min_x b.max_x (ground arith) (ground arith))
      (mem_span_of_range c.y b.min_y b.max_y (ground arith) (ground arith))

-- The cells that a search without limits can enter, and their number.
pub covered :
    (grid : NavigationGrid) (policy : UnknownTraversalPolicy)
    → unbounded grid policy none ≡ false
    → (cells : List Coordinate) × ((c : Coordinate)
        → can_enter grid c policy ≡ true
        → mem_cell c cells ≡ true)
      × (length cells ≡ cell_count grid policy)
unfolding can_enter
covered grid block h = (grid.open_cells, λ c enters. ground arith, refl)
covered grid allow h = go grid.bounds refl
  where
    go :
        (o : Option Bounds)
        → grid.bounds ≡ o
        → (cells : List Coordinate) × ((c : Coordinate)
            → can_enter grid c allow ≡ true
            → mem_cell c cells ≡ true)
          × (length cells ≡ cell_count grid allow)
    go none e = absurd (ground arith)
    go (some b) e =
        (box b, λ c enters. contains-box b c (ground arith), ground (arith, length-box b))
