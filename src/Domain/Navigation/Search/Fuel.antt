-- ===== src/Domain/Navigation/Search/Fuel.antt =====
-- The search turns at most as often as its fuel allows: by the node budget, or because each cell is
-- queued once and only finitely many can be entered.
use arena_hero_agent.Prelude.{
  ℕ, ◌+◌, ◌≤◌, ◌<◌, ◌≡◌, inl, inr, true, false, Option, some, List, [], ◌∷◌, length, length-append,
  arith, Bool-cases, if◌then◌else◌,
}
use arena_hero_agent.Domain.ValueObjects.{Coordinate, eq_coordinate, eq_coordinate_iff}
use arena_hero_agent.Domain.Navigation.{
  UnknownTraversalPolicy, NavigationGrid, SearchLimits, mem_cell, can_enter,
}
use arena_hero_agent.Domain.Navigation.Search.{
  Parents, Frontier, Visit, returned, continued, has_key, prune, visit_neighbors,
}
use arena_hero_agent.Domain.Navigation.Search.Invariant.{fate_cases, discover}

-- How many of the cells are not yet known.
pub unseen : List Coordinate → Parents → ℕ
unseen [] ps = 0
unseen (c ∷ cells) ps = (if has_key c ps then 0 else 1) + unseen cells ps

pub unseen-le-length : (cells : List Coordinate) (ps : Parents) → unseen cells ps ≤ length cells
unfolding unseen
unseen-le-length [] ps = omega arith
unseen-le-length (c ∷ cells) ps = ground (arith, unseen-le-length cells ps)

unseen-cons-le :
    (n : Coordinate) (p : Option Coordinate) (cells : List Coordinate) (ps : Parents)
    → unseen cells ((n, p) ∷ ps) ≤ unseen cells ps
unfolding unseen has_key
unseen-cons-le n p [] ps = omega arith
unseen-cons-le n p (c ∷ cells) ps = ground (arith, unseen-cons-le n p cells ps)

unseen-cons-lt :
    (n : Coordinate) (p : Option Coordinate) (cells : List Coordinate) (ps : Parents)
    → mem_cell n cells ≡ true
    → has_key n ps ≡ false
    → unseen cells ((n, p) ∷ ps) < unseen cells ps
unfolding unseen has_key mem_cell
unseen-cons-lt n p [] ps h new = cc
unseen-cons-lt n p (c ∷ cells) ps h new = ground (
  arith,
  unseen-cons-le n p cells ps,
  unseen-cons-lt n p cells ps,
  eq_coordinate_iff n c,
  eq_coordinate_iff c n,
)

-- The cells that the loop has still to take from the queue, and those that it can still queue.
abbrev pub work : List Coordinate → Frontier → ℕ
work cells f = length f.queue + unseen cells f.parents

abbrev pub WorkBelow : ℕ → List Coordinate → Visit → Type 0
WorkBelow w cells (returned _) = Unit
WorkBelow w cells (continued f) = work cells f ≤ w

WorkBelow-mono :
    (v w : ℕ) (cells : List Coordinate) (r : Visit)
    → v ≤ w
    → WorkBelow v cells r
    → WorkBelow w cells r
WorkBelow-mono v w cells (returned _) le h = tt
WorkBelow-mono v w cells (continued f) le h = omega arith

module _ (grid : NavigationGrid) (policy : UnknownTraversalPolicy) (limits : Option SearchLimits)
    (start target : Coordinate) where
  -- Every cell that can be entered is among `cells`.
  abbrev pub Covers : List Coordinate → Type 0
  Covers cells = (c : Coordinate) → can_enter grid c policy ≡ true → mem_cell c cells ≡ true

  work-discover :
      (current n : Coordinate) (cells : List Coordinate) (f : Frontier)
      → Covers cells
      → has_key n f.parents ≡ false
      → can_enter grid n policy ≡ true
      → work cells (discover grid policy limits start target current n f) ≤ work cells f
  work-discover current n cells f covers new enters = omega (
    arith,
    unseen-cons-lt n (some current) cells f.parents (covers n enters) new,
    length-append f.queue (n ∷ []),
  )

  pub visit_neighbors-work :
      (cells : List Coordinate) (current : Coordinate) (rest : List Coordinate) (f : Frontier)
      → Covers cells
      → WorkBelow
          (work cells f)
          cells
          (visit_neighbors grid policy limits start target current rest f)
  unfolding visit_neighbors
  visit_neighbors-work cells current [] f covers = omega arith
  visit_neighbors-work cells current (n ∷ rest) f covers =
      elim (fate_cases grid policy limits start target n f.parents) [
        | inl (e, _) ↦
            rw (e, visit_neighbors)
              (visit_neighbors-work cells current rest (prune grid policy limits start target n f)
                covers)
        | inr (inl (e, _)) ↦
            rw (e, visit_neighbors) (visit_neighbors-work cells current rest f covers)
        | inr (inr (e, _, new, enters)) ↦ elim (Bool-cases (eq_coordinate n target)) [
          | inl hit ↦ rw (e, visit_neighbors) (rw hit tt)
          | inr other ↦
              let after = discover grid policy limits start target current n f in
              rw (e, visit_neighbors)
                (rw other (
                  WorkBelow-mono (work cells after) (work cells f) cells _
                    (work-discover current n cells f covers new enters)
                    (visit_neighbors-work cells current rest after covers)))
        ]
      ]
