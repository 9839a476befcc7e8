-- ===== src/Domain/Economy/Reducer.antt =====
-- domain/economy.py: what `initial`, `advance` and `replay_economy` return.
use arena_hero_agent.Prelude.{
  ◌+◌, ◌≤◌, ◌≡◌, refl, String, ◌||◌, not, sym, ◌∙◌, ltb, ◌==◌, str_eq, if◌then◌else◌, arith,
}
use arena_hero_agent.Prelude.Int.{ℤ, pos, ◌-ℤ◌}
use arena_hero_agent.Prelude.Exceptions.{ok, raise, value_error}
use arena_hero_agent.Domain.Rules.{max_safe_integer}
use arena_hero_agent.Domain.Economy.State.{
  EconomyTurnInput, EconomyState, economy_state, initial, advance,
}
use arena_hero_agent.Domain.Economy.Checks.{
  IsChecked, input_of, capacity_of, capacity_fits, standard_costs, base_prices_lem, state_of,
  economy_state_lem, delta_lem, unchanged_lem,
}

-- What holds of each economy state.
pub record IsSound (digest : EconomyTurnInput → String) (state : EconomyState) : Type 0 where
  pub input : IsChecked (input_of state)
  pub capacity : state.resource_capacity ≡ capacity_of state.population
  pub space : state.resource_space + state.resources ≡ state.resource_capacity
  pub base : state.base_costs ≡ standard_costs
  pub stamped : digest (input_of state) ≡ state.input_digest

module _ (digest : EconomyTurnInput → String) where
  -- The state that `advance` makes of an input of a later tick.
  abbrev pub advanced : EconomyState → EconomyTurnInput → EconomyState
  advanced state source =
      state_of (digest source) source (pos source.resources -ℤ pos state.resources)
        (pos source.population -ℤ pos state.population)

  pub state_of-IsSound :
      (source : EconomyTurnInput) (dr dp : ℤ)
      → IsChecked source
      → IsSound digest (state_of (digest source) source dr dp)
  state_of-IsSound source dr dp c = record {
    input = c;
    capacity = refl;
    space = omega (arith, c.resources_fit);
    base = refl;
    stamped = refl;
  }

  -- The first state of a checked input passes its checks and holds the input's balances.
  pub initial_lem :
      (source : EconomyTurnInput)
      → IsChecked source
      → initial digest source ≡ ok (state_of (digest source) source (pos 0) (pos 0))
  unfolding initial
  initial_lem source c =
      rw (capacity_fits source.population c.population_fits, base_prices_lem, initial)
        (economy_state_lem digest source (pos 0) (pos 0) c unchanged_lem unchanged_lem)

  resources-le :
      {source : EconomyTurnInput} → IsChecked source → source.resources ≤ max_safe_integer
  resources-le c = omega (arith, c.resources_fit, c.population_fits)

  population-le :
      {source : EconomyTurnInput} → IsChecked source → source.population ≤ max_safe_integer
  population-le c = omega (arith, c.population_fits)

  module _ (state : EconomyState) (source : EconomyTurnInput) (s : IsSound digest state)
      (c : IsChecked source) where
    advance_later :
        source.seed ≡ state.seed
        → economy_state digest
            (pos state.seed)
            (pos source.tick)
            state.rules_version
            (pos source.resources)
            (pos source.population)
            (pos (capacity_of source.population))
            (pos (capacity_of source.population) -ℤ pos source.resources)
            state.base_costs
            source.unit_prices
            (pos source.resources -ℤ pos state.resources)
            (pos source.population -ℤ pos state.population)
            (digest source)
          ≡ ok (advanced state source)
    advance_later p =
        rw (sym p, s.input.current ∙ sym c.current, s.base)
          (economy_state_lem digest source _ _ c
            (delta_lem source.resources state.resources (resources-le c) (resources-le s.input))
            (delta_lem source.population state.population (population-le c)
              (population-le s.input)))

    -- A checked input of the same seed and a later tick always advances a sound state, to the state of
    -- that input with the changes of the two balances. The input of the state's own tick leaves it as
    -- it is if the digests agree; another seed, an earlier tick, or another input of the same tick is
    -- a ValueError. No check of the new state fails.
    pub advance_lem : advance digest state source ≡ (
        if not (source.seed == state.seed) || ltb source.tick state.tick
        then raise value_error
        else if source.tick == state.tick
        then (if str_eq (digest source) state.input_digest then ok state else raise value_error)
        else ok (advanced state source))
    unfolding advance
    advance_lem = ground (
      arith,
      c.current,
      s.input.current,
      capacity_fits source.population c.population_fits,
      advance_later,
    )
