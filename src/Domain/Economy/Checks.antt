-- ===== src/Domain/Economy/Checks.antt =====
-- domain/economy.py: the checks of the turn inputs and of the economy states.
use arena_hero_agent.Prelude.{
  ℕ, ◌-◌, ◌*◌, ◌≤◌, ◌≡◌, refl, String, true, false, ◌⊎◌, inl, inr, ltb, leb, max, str_eq, eq_iff,
  if◌then◌else◌, arith, Bool-cases, ==_iff,
}
use arena_hero_agent.Prelude.Int.{ℤ, pos, pos_part, negsuc, ◌-ℤ◌, eq_ℤ}
use arena_hero_agent.Prelude.Exceptions.{ok, raise, value_error, Result-cases}
use arena_hero_agent.Domain.Rules.{RulesVersion, v0_14, nonnegative_safe_int, max_safe_integer}
use arena_hero_agent.Domain.Economy.{
  UnitPrices, eq_prices, base_prices, prices_for, core_resource_capacity, signed_safe_int,
}
use arena_hero_agent.Domain.Economy.State.{
  EconomyTurnInput, economy_turn_input, EconomyState, economy_state,
}

-- The capacity of a Core with that many units.
abbrev pub capacity_of : ℕ → ℕ
capacity_of population = max 10 (population * 5)

-- What the checks of a turn input establish.
pub record IsChecked (source : EconomyTurnInput) : Type 0 where
  pub current : source.rules_version ≡ v0_14
  pub seed_fits : source.seed ≤ max_safe_integer
  pub tick_fits : source.tick ≤ max_safe_integer
  pub population_fits : source.population ≤ 1801439850948198
  pub resources_fit : source.resources ≤ capacity_of source.population
  pub priced : prices_for (pos source.population) v0_14 ≡ ok source.unit_prices

-- The input that a state was made from.
abbrev pub input_of : EconomyState → EconomyTurnInput
input_of state = record {
  seed = state.seed;
  tick = state.tick;
  rules_version = state.rules_version;
  resources = state.resources;
  population = state.population;
  unit_prices = state.unit_prices;
}

eq_prices_lem : (p q : UnitPrices) → eq_prices p q ≡ true → p ≡ q
unfolding eq_prices
eq_prices_lem p q h = ground arith

pub str_self : (s : String) → str_eq s s ≡ true
str_self s = (eq_iff s s).1 refl

eq_prices_refl : (p : UnitPrices) → eq_prices p p ≡ true
unfolding eq_prices
eq_prices_refl p = ground arith

capacity_lem :
    (population : ℕ)
    → core_resource_capacity (pos population)
      ≡ (if leb population 1801439850948198 then ok (capacity_of population) else raise value_error)
unfolding core_resource_capacity nonnegative_safe_int
capacity_lem population = ground arith

safe_lem : (n : ℕ) → n ≤ max_safe_integer → nonnegative_safe_int (pos n) ≡ ok n
unfolding nonnegative_safe_int
safe_lem n h = ground arith

room_lem :
    (c r : ℕ) → r ≤ c → c ≤ max_safe_integer → nonnegative_safe_int (pos c -ℤ pos r) ≡ ok (c - r)
unfolding nonnegative_safe_int ◌-ℤ◌
room_lem c r h k = ground arith

not_ltb : {a b : ℕ} → a ≤ b → ltb b a ≡ false
not_ltb h = ground arith

room-eq : (c r : ℕ) → r ≤ c → eq_ℤ (pos (c - r)) (pos c -ℤ pos r) ≡ true
unfolding ◌-ℤ◌
room-eq c r h = ground arith

pub capacity_fits :
    (p : ℕ) → p ≤ 1801439850948198 → core_resource_capacity (pos p) ≡ ok (capacity_of p)
capacity_fits p h = ground (arith, capacity_lem p)

safe_int_cases :
    (v : ℤ)
    → (nonnegative_safe_int v ≡ raise value_error)
      ⊎ ((nonnegative_safe_int v ≡ ok (pos_part v)) × (pos_part v ≤ max_safe_integer))
unfolding nonnegative_safe_int
safe_int_cases (negsuc n) = inl (ground arith)
safe_int_cases (pos n) = elim (Bool-cases (ltb max_safe_integer n)) [
  | inl large ↦ inl (ground arith)
  | inr small ↦ inr (ground arith)
]

-- An input that passes its checks is well formed.
pub economy_turn_input-IsChecked :
    (seed tick : ℤ) (version : RulesVersion) (resources population : ℤ) (prices : UnitPrices)
    {source : EconomyTurnInput}
    → economy_turn_input seed tick version resources population prices ≡ ok source
    → IsChecked source
unfolding economy_turn_input
economy_turn_input-IsChecked seed tick version r p prices e =
    elim (Result-cases (prices_for (pos (pos_part p)) version)) [
      | inl (x, bad) ↦ ground (arith, safe_int_cases p)
      | inr (expected, priced) ↦ ground (
        arith,
        safe_int_cases seed,
        safe_int_cases tick,
        safe_int_cases r,
        safe_int_cases p,
        capacity_lem (pos_part p),
        eq_prices_lem prices expected,
      )
    ]

checked_input :
    {source : EconomyTurnInput}
    → IsChecked source
    → economy_turn_input
        (pos source.seed)
        (pos source.tick)
        source.rules_version
        (pos source.resources)
        (pos source.population)
        source.unit_prices
      ≡ ok source
unfolding economy_turn_input nonnegative_safe_int
checked_input {source} c =
    ground (arith, capacity_lem source.population, eq_prices_refl source.unit_prices)

-- `UnitPrices.base()`
abbrev pub standard_costs : UnitPrices
standard_costs = record { worker = 5; vanguard = 10; ranger = 12 }

pub base_prices_lem : base_prices ≡ ok standard_costs
unfolding base_prices
base_prices_lem = refl

-- The state of an input, with the changes of its balances.
abbrev pub state_of : String → EconomyTurnInput → (dr dp : ℤ) → EconomyState
state_of stamp source dr dp = record {
  seed = source.seed;
  tick = source.tick;
  rules_version = source.rules_version;
  resources = source.resources;
  population = source.population;
  resource_capacity = capacity_of source.population;
  resource_space = capacity_of source.population - source.resources;
  base_costs = standard_costs;
  unit_prices = source.unit_prices;
  resource_delta = dr;
  population_delta = dp;
  input_digest = stamp;
}

-- The checks of a state pass on the fields that are derived from a checked input.
pub economy_state_lem :
    (digest : EconomyTurnInput → String) (source : EconomyTurnInput) (dr dp : ℤ)
    → IsChecked source
    → signed_safe_int dr ≡ ok dr
    → signed_safe_int dp ≡ ok dp
    → economy_state digest
        (pos source.seed)
        (pos source.tick)
        source.rules_version
        (pos source.resources)
        (pos source.population)
        (pos (capacity_of source.population))
        (pos (capacity_of source.population) -ℤ pos source.resources)
        standard_costs
        source.unit_prices
        dr
        dp
        (digest source)
      ≡ ok (state_of (digest source) source dr dp)
unfolding economy_state
economy_state_lem digest source dr dp c x y =
    rw
      (
        c.current,
        safe_lem source.seed c.seed_fits,
        safe_lem source.tick c.tick_fits,
        safe_lem source.resources (omega (arith, c.resources_fit, c.population_fits)),
        safe_lem source.population (omega (arith, c.population_fits)),
        safe_lem (capacity_of source.population) (omega (arith, c.population_fits)),
        room_lem (capacity_of source.population) source.resources c.resources_fit
            (omega (arith, c.population_fits)),
        x,
        y,
        capacity_fits source.population c.population_fits,
        base_prices_lem,
        c.priced,
        (==_iff (capacity_of source.population) (capacity_of source.population)).1 refl,
        not_ltb c.resources_fit,
        room-eq (capacity_of source.population) source.resources c.resources_fit,
        eq_prices_refl standard_costs,
        eq_prices_refl source.unit_prices,
        rw c.current at (checked_input c),
        economy_state,
      )
      (ground (arith, c.current, eq_iff (digest source) (digest source)))

-- A change of a balance is in the signed safe range.
pub delta_lem :
    (a b : ℕ)
    → a ≤ max_safe_integer
    → b ≤ max_safe_integer
    → signed_safe_int (pos a -ℤ pos b) ≡ ok (pos a -ℤ pos b)
unfolding signed_safe_int ◌-ℤ◌
delta_lem a b h k = ground arith

pub unchanged_lem : signed_safe_int (pos 0) ≡ ok (pos 0)
unfolding signed_safe_int
unchanged_lem = refl
