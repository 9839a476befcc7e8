-- ===== src/Domain/Navigation/Search/Paths.antt =====
-- What a path of the grid is, and that the parents of the search lead back along one.
use mathlib.Core.Path.{subst}
use arena_hero_agent.Prelude.{
  ℕ, zero, suc, ◌≤◌, ◌≡◌, refl, sym, ◌∙◌, true, false, Option, none, some, List, [], ◌∷◌, length,
  arith, Bool-cases, inl, inr,
}
use arena_hero_agent.Prelude.Int.{pos}
use arena_hero_agent.Prelude.Exceptions.{Result, ok, raise}
use arena_hero_agent.Domain.ValueObjects.{
  Coordinate, Direction, step, eq_coordinate, eq_coordinate_iff,
}
use arena_hero_agent.Domain.Navigation.{
  UnknownTraversalPolicy, NavigationGrid, SearchLimits, can_enter,
}
use arena_hero_agent.Domain.Navigation.Search.{Parents, has_key, parent_of, trace, beyond_radius}

abbrev pub IsAdjacent : Coordinate → Coordinate → Type 0
IsAdjacent a b = (d : Direction) × (step a d (pos 1) ≡ ok b)

module _ (grid : NavigationGrid) (policy : UnknownTraversalPolicy) where
  abbrev pub IsEnterable : Coordinate → Type 0
  IsEnterable c = can_enter grid c policy ≡ true

  -- The cells after `a` go by single steps through cells that can be entered, to `target`.
  abbrev pub Leads : Coordinate → List Coordinate → Coordinate → Type 0
  Leads a [] target = a ≡ target
  Leads a (b ∷ rest) target = IsAdjacent a b × IsEnterable b × Leads b rest target

  -- A path from `start` to `target`, both included.
  abbrev pub IsPath : (start target : Coordinate) → List Coordinate → Type 0
  IsPath start target [] = ⊥
  IsPath start target (a ∷ rest) = (a ≡ start) × IsEnterable a × Leads a rest target

  -- Every entry but the oldest has a parent among the older ones, one step away.
  abbrev pub IsTree : (limits : Option SearchLimits) (start : Coordinate) → Parents → Type 0
  IsTree limits start [] = ⊥
  IsTree limits start ((c, none) ∷ []) = (c ≡ start) × IsEnterable c
  IsTree limits start ((c, none) ∷ _ ∷ _) = ⊥
  IsTree limits start ((c, some p) ∷ ps) =
      IsEnterable c
      × IsAdjacent p c
      × (has_key p ps ≡ true)
      × (has_key c ps ≡ false)
      × (beyond_radius limits start c ≡ false)
      × IsTree limits start ps

eq_coordinate_refl : (c : Coordinate) → eq_coordinate c c ≡ true
eq_coordinate_refl c = (eq_coordinate_iff c c).1 refl

module _ (grid : NavigationGrid) (policy : UnknownTraversalPolicy) (limits : Option SearchLimits)
    (start target : Coordinate) where
  abbrev Tree : Parents → Type 0
  Tree ps = IsTree grid policy limits start ps

  parent_of-has_key :
      (c q : Coordinate) (ps : Parents)
      → Tree ps
      → parent_of c ps ≡ ok (some q)
      → has_key q ps ≡ true
  unfolding parent_of has_key
  parent_of-has_key c q [] t e = absurd t
  parent_of-has_key c q ((k, none) ∷ []) t e = ground arith
  parent_of-has_key c q ((k, none) ∷ _ ∷ _) t e = absurd t
  parent_of-has_key c q ((k, some p) ∷ ps) t e = ground (arith, parent_of-has_key c q ps t.5)

  trace-cons :
      (fuel : ℕ) (k : Coordinate) (p : Option Coordinate) (ps : Parents) (c : Coordinate)
      (path : List Coordinate)
      → has_key k ps ≡ false
      → Tree ps
      → has_key c ps ≡ true
      → trace fuel ((k, p) ∷ ps) (some c) path ≡ trace fuel ps (some c) path
  unfolding trace parent_of has_key
  trace-cons zero k p ps c path new t old = refl
  trace-cons (suc fuel) k p ps c path new t old =
      let other : eq_coordinate c k ≡ false = ground (arith, eq_coordinate_iff c k) in
      rw (other, trace, parent_of)
        (go (λ q h. trace-cons fuel k p ps q (c ∷ path) new t (parent_of-has_key c q ps t h))
          (parent_of c ps) refl)
    where
      go :
          ((q : Coordinate)
            → parent_of c ps ≡ ok (some q)
            → trace fuel ((k, p) ∷ ps) (some q) (c ∷ path) ≡ trace fuel ps (some q) (c ∷ path))
          → (r : Result (Option Coordinate)) → parent_of c ps ≡ r
          → ◌≡◌ {A = Result (List Coordinate)}
              (elim r [
                | ok parent ↦ trace fuel ((k, p) ∷ ps) parent (c ∷ path)
                | raise e ↦ raise e
              ])
              (elim r [ ok parent ↦ trace fuel ps parent (c ∷ path) | raise e ↦ raise e ])
      go known (raise e) h = refl
      go known (ok none) h = refl
      go known (ok (some q)) h = known q h

  -- From a known cell the parents lead back to the start, and the loop ends within its fuel.
  pub trace-Leads :
      (fuel : ℕ) (ps : Parents) (c : Coordinate) (path : List Coordinate)
      → Tree ps
      → has_key c ps ≡ true
      → length ps ≤ fuel
      → Leads grid policy c path target
      → (rest : List Coordinate) × (trace fuel ps (some c) path ≡ ok (start ∷ rest))
        × IsEnterable grid policy start
        × Leads grid policy start rest target
  unfolding trace parent_of has_key
  trace-Leads fuel [] c path t old enough leads = absurd t
  trace-Leads zero (e ∷ ps) c path t old enough leads = absurd (omega arith)
  trace-Leads (suc fuel) ((k, none) ∷ []) c path t old enough leads =
      let first : c ≡ start = ground (arith, eq_coordinate_iff c k) in
      (
        path,
        ground (arith, eq_coordinate_iff c k),
        rw (← t.0) t.1,
        subst (λ z. Leads grid policy z path target) first leads,
      )
  trace-Leads (suc fuel) ((k, none) ∷ _ ∷ _) c path t old enough leads = absurd t
  trace-Leads (suc fuel) ((k, some p) ∷ ps) c path t old enough leads =
      elim (Bool-cases (eq_coordinate c k)) [
        | inl same ↦
            let here : k ≡ c = sym ((eq_coordinate_iff c k).0 same) in
            let (rest, ends, enter, route) =
              trace-Leads fuel ps p (c ∷ path) t.5 t.2 (omega arith)
                (subst (IsAdjacent p) here t.1, subst (IsEnterable grid policy) here t.0, leads) in
            (
              rest,
              ground (arith, trace-cons fuel k (some p) ps p (c ∷ path) t.3 t.5 t.2),
              enter,
              route,
            )
        | inr other ↦
            let older : has_key c ps ≡ true = ground arith in
            let (rest, ends, enter, route) =
              trace-Leads (suc fuel) ps c path t.5 older (omega arith) leads in
            (rest, trace-cons (suc fuel) k (some p) ps c path t.3 t.5 older ∙ ends, enter, route)
      ]
