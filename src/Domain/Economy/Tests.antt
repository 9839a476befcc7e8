-- ===== src/Domain/Economy/Tests.antt =====
-- Runs of the pricing and of the economy reducer, and the theorems at concrete inputs.
use Prim.Native.Nat.{◌^◌}
use arena_hero_agent.Prelude.{
  ℕ, ◌*◌, ◌≤◌, ◌<◌, ◌≡◌, refl, String, List, [], ◌∷◌, length, ◌==◌, if◌then◌else◌, arith,
}
use arena_hero_agent.Prelude.Int.{pos, ◌-ℤ◌}
use arena_hero_agent.Prelude.Exceptions.{ok, raise, value_error}
use arena_hero_agent.Domain.Rules.{v0_11, v0_14, max_safe_integer, nonnegative_safe_int}
use arena_hero_agent.Domain.Economy.{
  worker, ranger, UnitPrices, unit_price, prices_for, core_resource_capacity,
  max_safe_price_exponent, price_exponent_limit, maximum_safe_exponent, eq_prices, base_prices,
  signed_safe_int,
}
use arena_hero_agent.Domain.Economy.Pricing.{unit_price_bounds, IsNearest}
use arena_hero_agent.Domain.Economy.Ceiling.{maximum_safe_exponent_lem, IsCeiling}
use arena_hero_agent.Domain.Economy.State.{
  EconomyTurnInput, EconomyState, economy_state, economy_turn_input, advance, replay_economy,
}
use arena_hero_agent.Domain.Economy.Checks.{IsChecked, economy_turn_input-IsChecked, state_of}
use arena_hero_agent.Domain.Economy.Reducer.{IsSound, advance_lem, advanced}
use arena_hero_agent.Domain.Economy.Replay.{IsHistory, replay_economy_lem}

-- The limit of the exponents is what the search finds.
limit_found : max_safe_price_exponent 200 ≡ ok price_exponent_limit
unfolding max_safe_price_exponent maximum_safe_exponent
limit_found = refl

worker_at_20 : unit_price worker (pos 20) v0_14 ≡ ok 7
unfolding unit_price
worker_at_20 = refl

ranger_at_669 : unit_price ranger (pos 670) v0_14 ≡ raise value_error
unfolding unit_price
ranger_at_669 = refl

old_rules : unit_price ranger (pos 1) v0_11 ≡ raise value_error
unfolding unit_price
old_rules = refl

unit_price_bounds_example : IsNearest (5 * 13 ^ 1) (10 ^ 1) 7 × (0 < 7) × (7 ≤ max_safe_integer)
unfolding unit_price
unit_price_bounds_example = unit_price_bounds worker 20 v0_14 refl

maximum_safe_exponent_lem_example :
    (k : ℕ) × (maximum_safe_exponent 40000000000000000 5 ≡ ok k) × IsCeiling 5 k
maximum_safe_exponent_lem_example =
    maximum_safe_exponent_lem 40000000000000000 5 (omega arith) (omega arith)

abbrev test_digest : EconomyTurnInput → String
test_digest source =
    if source.tick == 3 then "three" else if source.tick == 5 then "five" else "other"

abbrev few_units : UnitPrices
few_units = record { worker = 5; vanguard = 10; ranger = 12 }

abbrev turn : ℕ → ℕ → ℕ → EconomyTurnInput
turn tick resources population = record {
  seed = 7;
  tick = tick;
  rules_version = v0_14;
  resources = resources;
  population = population;
  unit_prices = few_units;
}

turn_built : economy_turn_input (pos 7) (pos 3) v0_14 (pos 9) (pos 4) few_units ≡ ok (turn 3 9 4)
unfolding economy_turn_input nonnegative_safe_int core_resource_capacity prices_for eq_prices
turn_built = refl

later_built : economy_turn_input (pos 7) (pos 5) v0_14 (pos 6) (pos 5) few_units ≡ ok (turn 5 6 5)
unfolding economy_turn_input nonnegative_safe_int core_resource_capacity prices_for eq_prices
later_built = refl

turn-IsChecked : IsChecked (turn 3 9 4)
turn-IsChecked =
    economy_turn_input-IsChecked (pos 7) (pos 3) v0_14 (pos 9) (pos 4) few_units turn_built

later-IsChecked : IsChecked (turn 5 6 5)
later-IsChecked =
    economy_turn_input-IsChecked (pos 7) (pos 5) v0_14 (pos 6) (pos 5) few_units later_built

abbrev first_state : EconomyState
first_state = state_of "three" (turn 3 9 4) (pos 0) (pos 0)

first-IsSound : IsSound test_digest first_state
first-IsSound = record {
  input = turn-IsChecked;
  capacity = refl;
  space = refl;
  base = refl;
  stamped = refl;
}

advance_lem_example :
    advance test_digest first_state (turn 5 6 5)
    ≡ ok (advanced test_digest first_state (turn 5 6 5))
advance_lem_example = advance_lem test_digest first_state (turn 5 6 5) first-IsSound later-IsChecked

abbrev second_state : EconomyState
second_state = advanced test_digest first_state (turn 5 6 5)

replayed :
    replay_economy test_digest first_state (turn 3 9 4 ∷ turn 5 6 5 ∷ turn 5 6 5 ∷ [])
    ≡ ok (first_state ∷ first_state ∷ second_state ∷ second_state ∷ [])
unfolding replay_economy advance economy_state economy_turn_input nonnegative_safe_int
    core_resource_capacity prices_for eq_prices base_prices signed_safe_int ◌-ℤ◌
replayed = refl

replay_economy_lem_example :
    (rest : List EconomyState) × (first_state ∷ first_state ∷ second_state ∷ second_state ∷ []
      ≡ first_state ∷ rest)
    × IsHistory test_digest first_state rest
    × (length rest ≡ 3)
replay_economy_lem_example =
    replay_economy_lem test_digest first_state (turn 3 9 4 ∷ turn 5 6 5 ∷ turn 5 6 5 ∷ [])
      first-IsSound (turn-IsChecked, (later-IsChecked, (later-IsChecked, tt))) replayed
