-- ===== src/Domain/Navigation/Search/Invariant.antt =====
-- The invariant of the search, and what the loop over the neighbours does to it.
use mathlib.Core.Path.{subst}
use arena_hero_agent.Prelude.{
  suc, ◌≡◌, ◌⊎◌, ◌≢◌, none, inl, inr, refl, true, false, ◌&&◌, ◌||◌, not, Option, some, List, [],
  ◌∷◌, ◌++◌, length, arith, Bool-cases,
}
use arena_hero_agent.Prelude.Exceptions.{Result, ok}
use arena_hero_agent.Domain.ValueObjects.{Coordinate, eq_coordinate, eq_coordinate_iff}
use arena_hero_agent.Domain.Navigation.{
  UnknownTraversalPolicy, NavigationGrid, SearchLimits, mem_cell, can_enter, inside,
}
use arena_hero_agent.Domain.Navigation.Search.{
  Parents, Frontier, Visit, returned, continued, Fate, pruned, skipped, discovered, has_key,
  beyond_radius, fate, prune, visit_neighbors,
}
use arena_hero_agent.Domain.Navigation.Search.Paths.{
  IsAdjacent, IsEnterable, Leads, IsTree, trace-Leads,
}

pub mem_cell-snoc :
    (c n : Coordinate) (cells : List Coordinate)
    → mem_cell c (cells ++ n ∷ []) ≡ (mem_cell c cells || eq_coordinate c n)
unfolding mem_cell
mem_cell-snoc c n [] = ground arith
mem_cell-snoc c n (d ∷ cells) = ground (arith, mem_cell-snoc c n cells)

has_key-cons :
    (c : Coordinate) (e : Coordinate × Option Coordinate) (ps : Parents)
    → has_key c ps ≡ true
    → has_key c (e ∷ ps) ≡ true
unfolding has_key
has_key-cons c (k, p) ps h = ground arith

-- A cell that can be entered lies inside the bounds and is not blocked.
pub can_enter_clear :
    (grid : NavigationGrid) (policy : UnknownTraversalPolicy) (c : Coordinate)
    → can_enter grid c policy ≡ true
    → (inside grid.bounds c && not (mem_cell c grid.blocked_cells)) ≡ true
unfolding can_enter
can_enter_clear grid policy c h = ground arith

module _ (grid : NavigationGrid) (policy : UnknownTraversalPolicy) (limits : Option SearchLimits)
    (start target : Coordinate) where
  -- The invariant while the neighbours of `current` are visited and `rest` are left. A known cell
  -- that is not queued has no unknown neighbour, unless the radius has pruned a cell.
  pub record Visiting (current : Coordinate) (rest : List Coordinate) (f : Frontier) : Type 0 where
    pub tree : IsTree grid policy limits start f.parents
    pub started : has_key start f.parents ≡ true
    pub fresh : has_key target f.parents ≡ false
    pub known : has_key current f.parents ≡ true
    pub queued : (c : Coordinate) → mem_cell c f.queue ≡ true → has_key c f.parents ≡ true
    pub limited : f.radius_pruned ≡ true → limits ≢ none
    pub settled :
        f.radius_pruned ≡ false
        → (c n : Coordinate) → has_key c f.parents ≡ true
        → mem_cell c f.queue ≡ false
        → IsAdjacent c n
        → IsEnterable grid policy n
        → (has_key n f.parents ≡ true) ⊎ ((c ≡ current) × (mem_cell n rest ≡ true))

  abbrev pub AllAdjacent : Coordinate → List Coordinate → Type 0
  AllAdjacent c [] = Unit
  AllAdjacent c (n ∷ rest) = IsAdjacent c n × AllAdjacent c rest

  abbrev pub IsFound : Result (List Coordinate) → Type 0
  IsFound r =
      (rest : List Coordinate) × (r ≡ ok (start ∷ rest))
      × IsEnterable grid policy start
      × Leads grid policy start rest target

  abbrev pub Visited : Coordinate → Visit → Type 0
  Visited current (returned r) = IsFound r
  Visited current (continued f) = Visiting current [] f

  abbrev pub fate_of : Coordinate → Parents → Fate
  fate_of n ps = fate grid policy limits start target n ps

  pub fate_cases :
      (n : Coordinate) (ps : Parents)
      → (fate_of n ps ≡ pruned) × (beyond_radius limits start n ≡ true)
        ⊎ (fate_of n ps ≡ skipped) × ((has_key n ps ≡ true) ⊎ (can_enter grid n policy ≡ false))
        ⊎ (fate_of n ps ≡ discovered)
          × (beyond_radius limits start n ≡ false)
          × (has_key n ps ≡ false)
          × (can_enter grid n policy ≡ true)
  unfolding fate
  fate_cases n ps = ground arith

  Visiting-prune :
      (current n : Coordinate) (rest : List Coordinate) (f : Frontier)
      → beyond_radius limits start n ≡ true
      → Visiting current (n ∷ rest) f
      → Visiting current rest (prune grid policy limits start target n f)
  unfolding mem_cell
  Visiting-prune current n rest f beyond v = record {
    tree = v.tree;
    started = v.started;
    fresh = v.fresh;
    known = v.known;
    queued = v.queued;
    limited = λ _. ground (arith, beyond);
    settled = λ unpruned c m old gone adjacent enter.
        let before : f.radius_pruned ≡ false = ground arith in
        ground (
          arith,
          v.settled before c m old gone adjacent enter,
          eq_coordinate_iff m n,
          can_enter_clear grid policy m enter,
        );
  }

  Visiting-skip :
      (current n : Coordinate) (rest : List Coordinate) (f : Frontier)
      → (has_key n f.parents ≡ true) ⊎ (can_enter grid n policy ≡ false)
      → Visiting current (n ∷ rest) f
      → Visiting current rest f
  unfolding mem_cell
  Visiting-skip current n rest f useless v = record {
    tree = v.tree;
    started = v.started;
    fresh = v.fresh;
    known = v.known;
    queued = v.queued;
    limited = v.limited;
    settled = λ unpruned c m old gone adjacent enter.
        ground (arith, v.settled unpruned c m old gone adjacent enter, eq_coordinate_iff m n);
  }

  -- The frontier after the discovery of `n` from `current`.
  abbrev pub discover : Coordinate → Coordinate → Frontier → Frontier
  discover current n f = record f {
    queue = f.queue ++ n ∷ [];
    parents = (n, some current) ∷ f.parents;
  }

  Visiting-discover :
      (current n : Coordinate) (rest : List Coordinate) (f : Frontier)
      → beyond_radius limits start n ≡ false
      → has_key n f.parents ≡ false
      → can_enter grid n policy ≡ true
      → eq_coordinate n target ≡ false
      → IsAdjacent current n
      → Visiting current (n ∷ rest) f
      → Visiting current rest (discover current n f)
  unfolding mem_cell has_key
  Visiting-discover current n rest f near new enters other adj v = record {
    tree = (enters, adj, v.known, new, near, v.tree);
    started = ground (arith, v.started);
    fresh = ground (arith, v.fresh, eq_coordinate_iff target n, eq_coordinate_iff n target);
    known = ground (arith, v.known);
    queued = λ c h. ground (arith, v.queued c, mem_cell-snoc c n f.queue);
    limited = v.limited;
    settled = λ unpruned c m old gone adjacent enter. ground (
      arith,
      λ (k : has_key c f.parents ≡ true) (g : mem_cell c f.queue ≡ false).
          v.settled unpruned c m k g adjacent enter,
      eq_coordinate_iff m n,
      eq_coordinate_iff c n,
      mem_cell-snoc c n f.queue,
    );
  }

  pub visit_neighbors-Visited :
      (current : Coordinate) (rest : List Coordinate) (f : Frontier)
      → AllAdjacent current rest
      → Visiting current rest f
      → Visited current (visit_neighbors grid policy limits start target current rest f)
  unfolding visit_neighbors
  visit_neighbors-Visited current [] f adjacent v = v
  visit_neighbors-Visited current (n ∷ rest) f adjacent v = elim (fate_cases n f.parents) [
    | inl (e, beyond) ↦
        rw (e, visit_neighbors)
          (visit_neighbors-Visited current rest (prune grid policy limits start target n f)
            adjacent.1 (Visiting-prune current n rest f beyond v))
    | inr (inl (e, useless)) ↦
        rw (e, visit_neighbors)
          (visit_neighbors-Visited current rest f adjacent.1
            (Visiting-skip current n rest f useless v))
    | inr (inr (e, near, new, enters)) ↦ elim (Bool-cases (eq_coordinate n target)) [
      | inl hit ↦
          rw (e, visit_neighbors)
            (rw hit (
              trace-Leads grid policy limits start target
                (suc (length ((n, some current) ∷ f.parents))) ((n, some current) ∷ f.parents)
                current (target ∷ []) (enters, adjacent.0, v.known, new, near, v.tree)
                (has_key-cons current (n, some current) f.parents v.known) (omega arith)
                (let same : n ≡ target = (eq_coordinate_iff n target).0 hit in
                  (
                    subst (IsAdjacent current) same adjacent.0,
                    subst (IsEnterable grid policy) same enters,
                    refl,
                  ))))
      | inr other ↦
          rw (e, visit_neighbors)
            (rw other (
              visit_neighbors-Visited current rest (discover current n f) adjacent.1
                (Visiting-discover current n rest f near new enters other adjacent.0 v)))
    ]
  ]
