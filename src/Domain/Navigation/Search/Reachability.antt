-- ===== src/Domain/Navigation/Search/Reachability.antt =====
-- What `shortest_path`, `is_reachable` and `first_step` promise.
use mathlib.Core.Path.{subst}
use arena_hero_agent.Prelude.{
  ◌≡◌, ◌≢◌, ◌⊎◌, refl, sym, ◌∙◌, inl, inr, true, false, Option, none, some, List, [], ◌∷◌, arith,
}
use arena_hero_agent.Prelude.Int.{pos}
use arena_hero_agent.Prelude.Exceptions.{
  Result, ok, raise, value_error, unreachable_error, search_limit_exceeded, out_of_fuel,
}
use arena_hero_agent.Domain.ValueObjects.{
  Coordinate, Direction, step, eq_coordinate, eq_coordinate_iff,
}
use arena_hero_agent.Domain.Navigation.{
  UnknownTraversalPolicy, NavigationGrid, SearchLimits, can_enter, mem_cell,
}
use arena_hero_agent.Domain.Navigation.Metric.{direction_to_adjacent_lem}
use arena_hero_agent.Domain.Navigation.Search.{
  has_key, first_frontier, beyond_radius, search, search_fuel, unbounded, shortest_path,
  is_reachable, reachability, first_step, step_along,
}
use arena_hero_agent.Domain.Navigation.Search.Paths.{IsEnterable, Leads, IsPath}
use arena_hero_agent.Domain.Navigation.Search.Invariant.{Visiting}
use arena_hero_agent.Domain.Navigation.Search.Fuel.{unseen-le-length}
use arena_hero_agent.Domain.Navigation.Search.Cover.{covered}
use arena_hero_agent.Domain.Navigation.Search.Correct.{Verdict, search-Verdict, search_ends}

module _ (grid : NavigationGrid) (policy : UnknownTraversalPolicy) (limits : Option SearchLimits)
    (start target : Coordinate) where
  first_frontier-Visiting :
      can_enter grid start policy ≡ true
      → eq_coordinate start target ≡ false
      → Visiting grid policy limits start target start [] (first_frontier start)
  unfolding has_key mem_cell
  first_frontier-Visiting enters other = record {
    tree = (refl, enters);
    started = ground (arith, eq_coordinate_iff start start);
    fresh = ground (arith, eq_coordinate_iff start target, eq_coordinate_iff target start);
    known = ground (arith, eq_coordinate_iff start start);
    queued = λ c h. h;
    limited = λ h. cc;
    settled = λ _ c n old gone adjacent enter. cc;
  }

  -- What an outcome of `shortest_path` says.
  abbrev pub Outcome : Result (List Coordinate) → Type 0
  Outcome (ok path) = IsPath grid policy start target path
  Outcome (raise unreachable_error) =
      (path : List Coordinate) → ¬ IsPath grid policy start target path
  Outcome (raise search_limit_exceeded) = limits ≢ none
  Outcome (raise value_error) = unbounded grid policy limits ≡ true
  Outcome (raise _) = ⊥

  Outcome-Verdict :
      (r : Result (List Coordinate))
      → Verdict grid policy limits start target r
      → r ≢ raise out_of_fuel
      → Outcome r
  Outcome-Verdict (ok path) v ends = v
  Outcome-Verdict (raise unreachable_error) v ends = v
  Outcome-Verdict (raise search_limit_exceeded) v ends = v
  Outcome-Verdict (raise out_of_fuel) v ends = absurd (ends refl)
  Outcome-Verdict (raise _) v ends = absurd v

  abbrev searched : Result (List Coordinate)
  searched =
      search grid policy limits start target (search_fuel grid policy limits) 0
        (first_frontier start)

  -- The early exits of `shortest_path`, and its search.
  shortest_path_cases :
      let r = shortest_path grid start target policy limits in
      (unbounded grid policy limits ≡ true) × (r ≡ raise value_error)
      ⊎ (can_enter grid start policy ≡ false) × (r ≡ raise unreachable_error)
      ⊎ (can_enter grid target policy ≡ false) × (r ≡ raise unreachable_error)
      ⊎ (beyond_radius limits start target ≡ true) × (r ≡ raise search_limit_exceeded)
      ⊎ (can_enter grid start policy ≡ true)
        × (eq_coordinate start target ≡ true)
        × (r ≡ ok (start ∷ []))
      ⊎ (unbounded grid policy limits ≡ false)
        × (can_enter grid start policy ≡ true)
        × (eq_coordinate start target ≡ false)
        × (r ≡ searched)
  unfolding shortest_path
  shortest_path_cases = ground arith

  Leads-IsEnterable :
      (a : Coordinate) (rest : List Coordinate)
      → IsEnterable grid policy a
      → Leads grid policy a rest target
      → IsEnterable grid policy target
  Leads-IsEnterable a [] enter here = rw (← here) enter
  Leads-IsEnterable a (b ∷ rest) enter (adjacent, next, leads) = Leads-IsEnterable b rest next leads

  blocked_end :
      (path : List Coordinate)
      → (can_enter grid start policy ≡ false) ⊎ (can_enter grid target policy ≡ false)
      → ¬ IsPath grid policy start target path
  blocked_end [] h p = p
  blocked_end (a ∷ rest) (inl h) (here, enter, leads) = ground arith
  blocked_end (a ∷ rest) (inr h) (here, enter, leads) =
      ground (arith, Leads-IsEnterable a rest enter leads)

  searched_ends :
      unbounded grid policy limits ≡ false
      → Visiting grid policy limits start target start [] (first_frontier start)
      → searched ≢ raise out_of_fuel
  searched_ends bounded v = go limits refl
    where
      go : (l : Option SearchLimits) → limits ≡ l → searched ≢ raise out_of_fuel
      go none e =
          let (cells, covers, count) = covered grid policy (ground arith) in
          search_ends grid policy limits start target cells (search_fuel grid policy limits) 0 start
            (first_frontier start) (λ _. covers) v
            (ground (arith, unseen-le-length cells ((start, none) ∷ [])))
      go (some l) e =
          search_ends grid policy limits start target [] (search_fuel grid policy limits) 0 start
            (first_frontier start) (λ free. absurd (ground arith)) v (ground arith)

  -- `shortest_path` always ends, in one of four ways: a path from the start to the target, both
  -- included, by single steps through cells that can be entered; UnreachableError, and then there is
  -- no such path; SearchLimitExceeded, and then limits were given; or ValueError, and then the search
  -- was an unbounded one through unknown cells without limits.
  pub shortest_path-Outcome : Outcome (shortest_path grid start target policy limits)
  shortest_path-Outcome = elim shortest_path_cases [
    | inl (u, e) ↦ subst Outcome (sym e) u
    | inr (inl (h, e)) ↦ subst Outcome (sym e) (λ path. blocked_end path (inl h))
    | inr (inr (inl (h, e))) ↦ subst Outcome (sym e) (λ path. blocked_end path (inr h))
    | inr (inr (inr (inl (h, e)))) ↦ subst Outcome (sym e) (ground arith)
    | inr (inr (inr (inr (inl (enters, same, e))))) ↦
        subst Outcome (sym e) (refl, enters, (eq_coordinate_iff start target).0 same)
    | inr (inr (inr (inr (inr (bounded, enters, other, e))))) ↦
        let v = first_frontier-Visiting enters other in
        subst Outcome (sym e) (
          Outcome-Verdict searched
            (search-Verdict grid policy limits start target (search_fuel grid policy limits) 0 start
              (first_frontier start) v)
            (searched_ends bounded v))
  ]

-- On a bounded search without limits `is_reachable` always answers, and it answers true exactly when
-- there is a path.
pub is_reachable_decides :
    (grid : NavigationGrid) (policy : UnknownTraversalPolicy) (start target : Coordinate)
    → unbounded grid policy none ≡ false
    → (is_reachable grid start target policy none ≡ ok true)
        × ((path : List Coordinate) × IsPath grid policy start target path)
      ⊎ (is_reachable grid start target policy none ≡ ok false)
        × ((path : List Coordinate) → ¬ IsPath grid policy start target path)
unfolding is_reachable
is_reachable_decides grid policy start target bounded =
    go (shortest_path grid start target policy none)
      (shortest_path-Outcome grid policy none start target)
  where
    go :
        (r : Result (List Coordinate))
        → Outcome grid policy none start target r
        → (reachability r ≡ ok true)
            × ((path : List Coordinate) × IsPath grid policy start target path)
          ⊎ (reachability r ≡ ok false)
            × ((path : List Coordinate) → ¬ IsPath grid policy start target path)
    go (ok path) p = inl (refl, (path, p))
    go (raise unreachable_error) p = inr (refl, p)
    go (raise search_limit_exceeded) p = absurd (p refl)
    go (raise value_error) p = absurd (ground arith)
    go (raise _) p = absurd p

-- Between two different cells, a shortest path that is found has a second cell, and `first_step`
-- returns the direction of the single step to it.
pub first_step_correct :
    (grid : NavigationGrid) (policy : UnknownTraversalPolicy) (limits : Option SearchLimits)
    (start target : Coordinate) (path : List Coordinate)
    → start ≢ target
    → shortest_path grid start target policy limits ≡ ok path
    → (d : Direction) × (n : Coordinate) × (rest : List Coordinate) × (path ≡ start ∷ n ∷ rest)
      × (step start d (pos 1) ≡ ok n)
      × (first_step grid start target policy limits ≡ ok d)
unfolding first_step
first_step_correct grid policy limits start target path other found =
    go path
      (subst (Outcome grid policy limits start target) found
        (shortest_path-Outcome grid policy limits start target))
      (rw found)
  where
    go :
        (p : List Coordinate)
        → IsPath grid policy start target p
        → first_step grid start target policy limits ≡ step_along p
        → (d : Direction) × (n : Coordinate) × (rest : List Coordinate) × (p ≡ start ∷ n ∷ rest)
          × (step start d (pos 1) ≡ ok n)
          × (first_step grid start target policy limits ≡ ok d)
    go [] h e = absurd h
    go (a ∷ []) (here, _, same) e = absurd (other (sym here ∙ same))
    go (a ∷ n ∷ rest) (here, _, ((d, moved), _, _)) e =
        let from_start : step start d (pos 1) ≡ ok n = rw (← here) moved in
        (
          d,
          n,
          rest,
          rw here,
          from_start,
          e ∙ rw here (direction_to_adjacent_lem start d n from_start),
        )
