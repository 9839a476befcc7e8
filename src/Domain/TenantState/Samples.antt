-- ===== src/Domain/TenantState/Samples.antt =====
-- Two turns of a tenant without units, for the tests of the tenant's state and of the arbiter.
use arena_hero_agent.Prelude.{ℕ, ◌≡◌, refl, String, none, [], arith, ◌==◌, if◌then◌else◌}
use arena_hero_agent.Prelude.Int.{pos}
use arena_hero_agent.Prelude.Exceptions.{ok}
use arena_hero_agent.Domain.Rules.{v0_14, nonnegative_safe_int}
use arena_hero_agent.Domain.Economy.{UnitPrices, core_resource_capacity, prices_for, eq_prices}
use arena_hero_agent.Domain.Economy.State.{EconomyTurnInput, EconomyState, economy_turn_input}
use arena_hero_agent.Domain.Economy.Checks.{economy_turn_input-IsChecked, state_of}
use arena_hero_agent.Domain.Economy.Reducer.{IsSound}
use arena_hero_agent.Domain.World.{WorldProjection}
use arena_hero_agent.Domain.TenantState.{TurnInput, TenantState}
use arena_hero_agent.Domain.TenantState.Reducers.{IsCoherent}
use arena_hero_agent.Domain.TenantState.Progress.{IsTurn}

abbrev pub sample_digest : EconomyTurnInput → String
sample_digest source = if source.tick == 3 then "three" else "five"

abbrev pub costs : UnitPrices
costs = record { worker = 5; vanguard = 10; ranger = 12 }

abbrev pub economy_at : ℕ → ℕ → EconomyTurnInput
economy_at tick resources = record {
  seed = 7;
  tick = tick;
  rules_version = v0_14;
  resources = resources;
  population = 0;
  unit_prices = costs;
}

abbrev pub world_at : ℕ → WorldProjection
world_at tick = record {
  tick = tick;
  rules_version = v0_14;
  core = none;
  units = [];
  entities = [];
  resources = [];
  terrain = [];
  beacon = none;
}

abbrev pub first_turn : TurnInput
first_turn = record { tick = 3; projection = world_at 3; economy = economy_at 3 4 }

abbrev pub second_turn : TurnInput
second_turn = record { tick = 5; projection = world_at 5; economy = economy_at 5 6 }

abbrev pub first_economy : EconomyState
first_economy = state_of "three" (economy_at 3 4) (pos 0) (pos 0)

abbrev pub first_state : TenantState
first_state = record {
  tenant_id = "a";
  world = world_at 3;
  economy = first_economy;
  decision_count = 0;
  last_decision_id = none;
}

first_built : economy_turn_input (pos 7) (pos 3) v0_14 (pos 4) (pos 0) costs ≡ ok (economy_at 3 4)
unfolding economy_turn_input nonnegative_safe_int core_resource_capacity prices_for eq_prices
first_built = refl

second_built : economy_turn_input (pos 7) (pos 5) v0_14 (pos 6) (pos 0) costs ≡ ok (economy_at 5 6)
unfolding economy_turn_input nonnegative_safe_int core_resource_capacity prices_for eq_prices
second_built = refl

pub first-IsSound : IsSound sample_digest first_economy
first-IsSound = record {
  input = economy_turn_input-IsChecked (pos 7) (pos 3) v0_14 (pos 4) (pos 0) costs first_built;
  capacity = refl;
  space = refl;
  base = refl;
  stamped = refl;
}

pub first-IsCoherent : IsCoherent first_state
first-IsCoherent = record {
  ticks = refl;
  versions = refl;
  populations = refl;
  counted = omega arith;
}

pub second-IsTurn : IsTurn second_turn
second-IsTurn = record {
  economy_tick = refl;
  versions = refl;
  populations = refl;
  checked = economy_turn_input-IsChecked (pos 7) (pos 5) v0_14 (pos 6) (pos 0) costs second_built;
}
