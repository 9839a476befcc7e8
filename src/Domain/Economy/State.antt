-- ===== src/Domain/Economy/State.antt =====
-- domain/economy.py: the turn inputs, the economy state, and the reducer that folds the inputs. The
-- digest of an input, a hash of its canonical text, is a parameter.
use arena_hero_agent.Prelude.{
  ℕ, String, Bool, true, false, not, List, [], ◌∷◌, ltb, ◌==◌, str_eq, if◌then◌else◌,
}
use arena_hero_agent.Prelude.Int.{ℤ, pos, ◌-ℤ◌, eq_ℤ}
use arena_hero_agent.Prelude.Exceptions.{Result, ok, raise, value_error, ◌>>=◌, ◌>>◌, raise_if}
use arena_hero_agent.Domain.Rules.{
  RulesVersion, v0_11, v0_14, assert_current_rules_version, nonnegative_safe_int,
}
use arena_hero_agent.Domain.Economy.{
  UnitPrices, eq_prices, base_prices, prices_for, core_resource_capacity, signed_safe_int,
}

pub record EconomyTurnInput : Type 0 where
  pub seed : ℕ
  pub tick : ℕ
  pub rules_version : RulesVersion
  pub resources : ℕ
  pub population : ℕ
  pub unit_prices : UnitPrices

-- `EconomyTurnInput(...)`, with the checks of `__post_init__`
unfoldable pub economy_turn_input :
    (seed tick : ℤ)
    → RulesVersion
    → (resources population : ℤ) → UnitPrices
    → Result EconomyTurnInput
economy_turn_input seed tick version resources population prices = do
  s ← nonnegative_safe_int seed
  t ← nonnegative_safe_int tick
  assert_current_rules_version version
  r ← nonnegative_safe_int resources
  p ← nonnegative_safe_int population
  capacity ← core_resource_capacity (pos p)
  raise_if (ltb capacity r) value_error
  expected ← prices_for (pos p) version
  raise_if (not (eq_prices prices expected)) value_error
  ok (record {
    seed = s;
    tick = t;
    rules_version = version;
    resources = r;
    population = p;
    unit_prices = prices;
  })

-- `EconomyTurnInput.observed`
pub observed : (seed tick : ℤ) → RulesVersion → (resources population : ℤ) → Result EconomyTurnInput
observed seed tick version resources population = do
  prices ← prices_for population version
  economy_turn_input seed tick version resources population prices

pub record EconomyState : Type 0 where
  pub seed : ℕ
  pub tick : ℕ
  pub rules_version : RulesVersion
  pub resources : ℕ
  pub population : ℕ
  pub resource_capacity : ℕ
  pub resource_space : ℕ
  pub base_costs : UnitPrices
  pub unit_prices : UnitPrices
  pub resource_delta : ℤ
  pub population_delta : ℤ
  pub input_digest : String

-- `version is other`
abbrev pub same_version : RulesVersion → RulesVersion → Bool
same_version v0_11 v0_11 = true
same_version v0_14 v0_14 = true
same_version v0_11 v0_14 = false
same_version v0_14 v0_11 = false

module _ (digest : EconomyTurnInput → String) where
  -- `EconomyState(...)`, with the checks of `__post_init__`
  unfoldable pub economy_state :
      (seed tick : ℤ)
      → RulesVersion
      → (resources population capacity space : ℤ) → (base prices : UnitPrices)
      → (resource_delta population_delta : ℤ) → (input_digest : String) → Result EconomyState
  economy_state seed tick version resources population capacity space base prices dr dp d = do
    s ← nonnegative_safe_int seed
    t ← nonnegative_safe_int tick
    assert_current_rules_version version
    r ← nonnegative_safe_int resources
    p ← nonnegative_safe_int population
    c ← nonnegative_safe_int capacity
    room ← nonnegative_safe_int space
    signed_safe_int dr
    signed_safe_int dp
    expected_capacity ← core_resource_capacity (pos p)
    raise_if (not (c == expected_capacity)) value_error
    raise_if (ltb c r) value_error
    raise_if (not (eq_ℤ (pos room) (pos c -ℤ pos r))) value_error
    base_costs ← base_prices
    raise_if (not (eq_prices base base_costs)) value_error
    expected ← prices_for (pos p) version
    raise_if (not (eq_prices prices expected)) value_error
    source ← economy_turn_input (pos s) (pos t) version (pos r) (pos p) prices
    raise_if (not (str_eq (digest source) d)) value_error
    ok (record {
      seed = s;
      tick = t;
      rules_version = version;
      resources = r;
      population = p;
      resource_capacity = c;
      resource_space = room;
      base_costs = base;
      unit_prices = prices;
      resource_delta = dr;
      population_delta = dp;
      input_digest = d;
    })

  -- `EconomyState.initial`
  unfoldable pub initial : EconomyTurnInput → Result EconomyState
  initial source = do
    capacity ← core_resource_capacity (pos source.population)
    base ← base_prices
    economy_state (pos source.seed) (pos source.tick) source.rules_version (pos source.resources)
        (pos source.population) (pos capacity) (pos capacity -ℤ pos source.resources) base
        source.unit_prices (pos 0) (pos 0) (digest source)

  -- `EconomyState.advance`
  unfoldable pub advance : EconomyState → EconomyTurnInput → Result EconomyState
  advance state source = do
    raise_if (not (source.seed == state.seed)) value_error
    raise_if (not (same_version source.rules_version state.rules_version)) value_error
    raise_if (ltb source.tick state.tick) value_error
    let repeated = str_eq (digest source) state.input_digest
    if source.tick == state.tick then (if repeated then ok state else raise value_error) else do
      capacity ← core_resource_capacity (pos source.population)
      economy_state (pos state.seed) (pos source.tick) state.rules_version (pos source.resources)
          (pos source.population) (pos capacity) (pos capacity -ℤ pos source.resources)
          state.base_costs source.unit_prices (pos source.resources -ℤ pos state.resources)
          (pos source.population -ℤ pos state.population) (digest source)

  -- The loop of `replay_economy`: the states after the current one.
  unfoldable pub replay_from : EconomyState → List EconomyTurnInput → Result (List EconomyState)
  replay_from current [] = ok []
  replay_from current (source ∷ inputs) = do
    state ← advance current source
    rest ← replay_from state inputs
    ok (state ∷ rest)

  -- `replay_economy`
  unfoldable pub replay_economy : EconomyState → List EconomyTurnInput → Result (List EconomyState)
  unfolding replay_from
  replay_economy start inputs = do rest ← replay_from start inputs; ok (start ∷ rest)
