-- ===== src/Domain/Navigation/Search/Correct.antt =====
-- `search` finds a path, or proves that there is none, or meets a limit.
use mathlib.Core.Path.{subst}
use arena_hero_agent.Prelude.{
  ℕ, zero, suc, ◌+◌, ◌-◌, ◌≤◌, ◌<◌, ◌≡◌, ◌≢◌, inl, inr, refl, sym, true, false, Option, none, some,
  List, [], ◌∷◌, arith, Bool-cases, List-cases,
}
use arena_hero_agent.Prelude.Exceptions.{
  Result, ok, raise, unreachable_error, search_limit_exceeded, out_of_fuel,
}
use arena_hero_agent.Domain.ValueObjects.{Coordinate, eq_coordinate, eq_coordinate_iff}
use arena_hero_agent.Domain.Navigation.{
  UnknownTraversalPolicy, NavigationGrid, SearchLimits, mem_cell, candidate_neighbors,
}
use arena_hero_agent.Domain.Navigation.Neighbors.{
  candidate_neighbors-AllSteps, mem_cell-candidate_neighbors, AllSteps,
}
use arena_hero_agent.Domain.Navigation.Search.{
  Frontier, Visit, returned, continued, has_key, budget_spent, search,
}
use arena_hero_agent.Domain.Navigation.Search.Paths.{Leads, IsPath}
use arena_hero_agent.Domain.Navigation.Search.Fuel.{work, Covers, WorkBelow, visit_neighbors-work}
use arena_hero_agent.Domain.Navigation.Search.Invariant.{
  Visiting, Visited, AllAdjacent, IsFound, visit_neighbors-Visited,
}

module _ (grid : NavigationGrid) (policy : UnknownTraversalPolicy) (limits : Option SearchLimits)
    (start target : Coordinate) where
  -- What each outcome of the search says.
  abbrev pub Verdict : Result (List Coordinate) → Type 0
  Verdict (ok path) = IsPath grid policy start target path
  Verdict (raise unreachable_error) =
      (path : List Coordinate) → ¬ IsPath grid policy start target path
  Verdict (raise search_limit_exceeded) = limits ≢ none
  Verdict (raise out_of_fuel) = Unit
  Verdict (raise _) = ⊥

  Verdict-IsFound :
      (r : Result (List Coordinate)) → IsFound grid policy limits start target r → Verdict r
  Verdict-IsFound r (rest, e, enter, leads) = subst Verdict (sym e) (refl, enter, leads)

  abbrev Invariant : Coordinate → List Coordinate → Frontier → Type 0
  Invariant = Visiting grid policy limits start target

  Visiting-pop :
      (last current : Coordinate) (queue : List Coordinate) (f : Frontier)
      → f.queue ≡ current ∷ queue
      → Invariant last [] f
      → Invariant current (candidate_neighbors current target) (record f { queue = queue })
  unfolding mem_cell
  Visiting-pop last current queue f e v = record {
    tree = v.tree;
    started = v.started;
    fresh = v.fresh;
    known = v.queued current (rw e (ground (arith, eq_coordinate_iff current current)));
    queued = λ c h. v.queued c (rw e (ground arith));
    limited = v.limited;
    settled = λ unpruned c n old gone adjacent enter. elim (Bool-cases (eq_coordinate c current)) [
      | inl same ↦
          let here : c ≡ current = (eq_coordinate_iff c current).0 same in
          inr
            (here, mem_cell-candidate_neighbors current n target adjacent.0 (rw here at adjacent.1))
      | inr other ↦ elim (v.settled unpruned c n old (rw e (ground arith)) adjacent enter) [
        | inl known ↦ inl known
        | inr (_, impossible) ↦ cc
      ]
    ];
  }

  -- With nothing queued and nothing pruned, the known cells are closed, so the target is cut off.
  closed_Leads :
      (last : Coordinate) (f : Frontier) (c : Coordinate) (rest : List Coordinate)
      → f.queue ≡ []
      → f.radius_pruned ≡ false
      → Invariant last [] f
      → has_key c f.parents ≡ true
      → Leads grid policy c rest target
      → ⊥
  unfolding mem_cell
  closed_Leads last f c [] empty unpruned v old here = ground (arith, v.fresh)
  closed_Leads last f c (n ∷ rest) empty unpruned v old (adjacent, enter, leads) =
      elim (v.settled unpruned c n old (rw empty refl) adjacent enter) [
        | inl known ↦ closed_Leads last f n rest empty unpruned v known leads
        | inr (_, impossible) ↦ cc
      ]

  no-IsPath :
      (last : Coordinate) (f : Frontier)
      → f.queue ≡ []
      → f.radius_pruned ≡ false
      → Invariant last [] f
      → (path : List Coordinate) → ¬ IsPath grid policy start target path
  no-IsPath last f empty unpruned v [] p = p
  no-IsPath last f empty unpruned v (a ∷ rest) (here, enter, leads) =
      closed_Leads last f a rest empty unpruned v (rw here v.started) leads

  spent_limits : (expanded : ℕ) → budget_spent limits expanded ≡ true → limits ≢ none
  spent_limits expanded spent = ground arith

  AllSteps→AllAdjacent :
      (c : Coordinate) (cells : List Coordinate)
      → AllSteps c cells
      → AllAdjacent grid policy limits start target c cells
  AllSteps→AllAdjacent c [] h = tt
  AllSteps→AllAdjacent c (n ∷ cells) h = (h.0, AllSteps→AllAdjacent c cells h.1)

  -- The outcome of a round, by how the loop over the neighbours ended.
  after_visit :
      (fuel expanded : ℕ) (current : Coordinate) (r : Visit)
      → Visited grid policy limits start target current r
      → ((f : Frontier)
          → Invariant current [] f
          → Verdict (search grid policy limits start target fuel expanded f))
      → Verdict (elim r [
        | returned path ↦ path
        | continued f ↦ search grid policy limits start target fuel expanded f
      ])
  after_visit fuel expanded current (returned path) v later = Verdict-IsFound path v
  after_visit fuel expanded current (continued f) v later = later f v

  pub search-Verdict :
      (fuel expanded : ℕ) (last : Coordinate) (f : Frontier)
      → Invariant last [] f
      → Verdict (search grid policy limits start target fuel expanded f)
  unfolding search
  search-Verdict zero expanded last f v = tt
  search-Verdict (suc fuel) expanded last f v = elim (List-cases f.queue) [
    | inl empty ↦ elim (Bool-cases f.radius_pruned) [
      | inl cut ↦ rw (empty, search) (rw cut (v.limited cut))
      | inr whole ↦ rw (empty, search) (rw whole (no-IsPath last f empty whole v))
    ]
    | inr (current, queue, e) ↦ elim (Bool-cases (budget_spent limits expanded)) [
      | inl spent ↦ rw (e, search) (rw spent (spent_limits expanded spent))
      | inr more ↦
          rw (e, search)
            (rw more (
              after_visit fuel (expanded + 1) current _
                (visit_neighbors-Visited grid policy limits start target current
                  (candidate_neighbors current target) (record f { queue = queue })
                  (AllSteps→AllAdjacent current _ (candidate_neighbors-AllSteps current target))
                  (Visiting-pop last current queue f e v))
                (search-Verdict fuel (expanded + 1) current)))
    ]
  ]

  -- What is left for the loop: the node budget, or the work on the cells that it can enter.
  abbrev pub remaining : List Coordinate → ℕ → Frontier → ℕ
  remaining cells expanded f = elim limits [
    | none ↦ work cells f
    | some l ↦ l.node_budget - expanded
  ]

  after_visit_ends :
      (fuel expanded : ℕ) (current : Coordinate) (r : Visit) (w : ℕ) (cells : List Coordinate)
      → Visited grid policy limits start target current r
      → (limits ≡ none → WorkBelow w cells r)
      → ((f : Frontier)
          → Invariant current [] f
          → (limits ≡ none → work cells f ≤ w)
          → search grid policy limits start target fuel expanded f ≢ raise out_of_fuel)
      → ◌≢◌ {A = Result (List Coordinate)}
          (elim r [
            | returned path ↦ path
            | continued f ↦ search grid policy limits start target fuel expanded f
          ])
          (raise out_of_fuel)
  after_visit_ends fuel expanded current (returned path) w cells (rest, e, _, _) below later = cc
  after_visit_ends fuel expanded current (continued f) w cells v below later = later f v below

  remaining_falls :
      (cells : List Coordinate) (fuel expanded : ℕ) (f f' : Frontier) (w : ℕ)
      → budget_spent limits expanded ≡ false
      → work cells f ≡ suc w
      → (limits ≡ none → work cells f' ≤ w)
      → remaining cells expanded f < suc fuel
      → remaining cells (expanded + 1) f' < fuel
  remaining_falls cells fuel expanded f f' w more shorter below enough = ground (arith)

  pub search_ends :
      (cells : List Coordinate) (fuel expanded : ℕ) (last : Coordinate) (f : Frontier)
      → (limits ≡ none → Covers grid policy limits start target cells)
      → Invariant last [] f
      → remaining cells expanded f < fuel
      → search grid policy limits start target fuel expanded f ≢ raise out_of_fuel
  unfolding search
  search_ends cells zero expanded last f covers v enough = elim enough [ ]
  search_ends cells (suc fuel) expanded last f covers v enough = elim (List-cases f.queue) [
    | inl empty ↦ rw (empty, search) (ground arith)
    | inr (current, queue, e) ↦ elim (Bool-cases (budget_spent limits expanded)) [
      | inl spent ↦ rw (e, search) (rw spent (ground arith))
      | inr more ↦
          let popped : Frontier = record f { queue = queue } in
          let shorter : work cells f ≡ suc (work cells popped) = rw e (omega arith) in
          rw (e, search)
            (rw more (
              after_visit_ends fuel (expanded + 1) current _ (work cells popped) cells
                (visit_neighbors-Visited grid policy limits start target current
                  (candidate_neighbors current target) popped
                  (AllSteps→AllAdjacent current _ (candidate_neighbors-AllSteps current target))
                  (Visiting-pop last current queue f e v))
                (λ free.
                  visit_neighbors-work grid policy limits start target cells current _ popped
                    (covers free))
                (λ f' v' below. search_ends cells fuel (expanded + 1) current f' covers v' (
                  remaining_falls cells fuel expanded f f' (work cells popped) more shorter below
                    enough))))
    ]
  ]
