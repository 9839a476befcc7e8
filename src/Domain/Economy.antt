-- ===== src/Domain/Economy.antt =====
-- domain/economy.py: the capacity of the Core and the dynamic unit prices, in exact integer
-- arithmetic. The reducers over a tenant's balances stand in State.
pub mod Pricing
pub mod Ceiling
pub mod State
pub mod Checks
pub mod Reducer
pub mod Replay
mod Tests
use Prim.Native.Nat.{◌/◌, ◌^◌}
use arena_hero_agent.Prelude.{
  ℕ, zero, suc, ◌+◌, ◌-◌, ◌*◌, ◌≡◌, refl, Bool, true, false, ◌&&◌, not, max, min, ltb, leb, ◌==◌,
  if◌then◌else◌,
}
use arena_hero_agent.Prelude.Int.{ℤ, pos, ltb_ℤ, leb_ℤ, negsuc}
use arena_hero_agent.Prelude.Exceptions.{
  Result, ok, raise, value_error, out_of_fuel, ◌>>=◌, ◌>>◌, raise_if,
}
use arena_hero_agent.Domain.Rules.{
  RulesVersion, assert_current_rules_version, max_safe_integer, nonnegative_safe_int,
}

pub data UnitRole : Type 0 where
  worker vanguard ranger : UnitRole

-- `BASE_UNIT_COSTS`
abbrev pub base_unit_cost : UnitRole → ℕ
base_unit_cost worker = 5
base_unit_cost vanguard = 10
base_unit_cost ranger = 12

-- `_positive_safe_int`
unfoldable pub positive_safe_int : ℤ → Result ℕ
unfolding nonnegative_safe_int
positive_safe_int value = do
  checked ← nonnegative_safe_int value
  raise_if (checked == 0) value_error
  ok checked

-- `_signed_safe_int`
unfoldable pub signed_safe_int : ℤ → Result ℤ
signed_safe_int value = do
  raise_if (not (leb_ℤ (negsuc 9007199254740990) value && leb_ℤ value (pos max_safe_integer)))
      value_error
  ok value

-- `_pricing_exponent`: 0 below 20 units, then one more for each 5 units
unfoldable pub pricing_exponent : ℕ → ℕ
pricing_exponent population = if ltb population 20 then 0 else (population - 20) / 5 + 1

-- numerator / denominator, rounded half up
abbrev pub round_half_up : ℕ → ℕ → ℕ
round_half_up numerator denominator = (2 * numerator + denominator) / (2 * denominator)

-- The loop of `_maximum_safe_exponent`, on fuel.
unfoldable pub maximum_safe_exponent_loop : ℕ → (exponent numerator denominator : ℕ) → Result ℕ
maximum_safe_exponent_loop zero exponent numerator denominator = raise out_of_fuel
maximum_safe_exponent_loop (suc fuel) exponent numerator denominator =
    let rest = maximum_safe_exponent_loop fuel (exponent + 1) (numerator * 13) (denominator * 10) in
    if ltb max_safe_integer (round_half_up (numerator * 13) (denominator * 10))
    then ok exponent
    else rest

-- `_maximum_safe_exponent`
unfoldable pub maximum_safe_exponent : ℕ → (base_cost : ℕ) → Result ℕ
unfolding maximum_safe_exponent_loop
maximum_safe_exponent fuel base_cost = maximum_safe_exponent_loop fuel 0 base_cost 1

-- `_MAX_SAFE_PRICE_EXPONENT`, on fuel for its three loops
pub max_safe_price_exponent : ℕ → Result ℕ
max_safe_price_exponent fuel = do
  w ← maximum_safe_exponent fuel (base_unit_cost worker)
  v ← maximum_safe_exponent fuel (base_unit_cost vanguard)
  r ← maximum_safe_exponent fuel (base_unit_cost ranger)
  ok (min w (min v r))

-- `core_resource_capacity`
unfoldable pub core_resource_capacity : ℤ → Result ℕ
unfolding nonnegative_safe_int
core_resource_capacity population = do
  checked ← nonnegative_safe_int population
  raise_if (ltb (max_safe_integer / 5) checked) value_error
  ok (max 10 (checked * 5))

-- The price of a role at an exponent, before its last check.
unfoldable pub price_at : UnitRole → ℕ → ℕ
price_at role exponent = round_half_up (base_unit_cost role * 13 ^ exponent) (10 ^ exponent)

-- The value of `_MAX_SAFE_PRICE_EXPONENT`.
abbrev pub price_exponent_limit : ℕ
price_exponent_limit = 130

unfoldable pub unit_price : UnitRole → (population : ℤ) → RulesVersion → Result ℕ
unfolding nonnegative_safe_int positive_safe_int pricing_exponent price_at
unit_price role population version = do
  assert_current_rules_version version
  checked ← nonnegative_safe_int population
  let exponent = pricing_exponent checked
  raise_if (ltb price_exponent_limit exponent) value_error
  positive_safe_int (pos (price_at role exponent))

pub record UnitPrices : Type 0 where
  pub worker : ℕ
  pub vanguard : ℕ
  pub ranger : ℕ

-- `UnitPrices(...)`, with the checks of `__post_init__`
unfoldable pub unit_prices : (w v r : ℤ) → Result UnitPrices
unfolding positive_safe_int
unit_prices w v r = do
  a ← positive_safe_int w
  b ← positive_safe_int v
  c ← positive_safe_int r
  ok (record { worker = a; vanguard = b; ranger = c })

-- The `==` that the dataclass derives.
unfoldable pub eq_prices : UnitPrices → UnitPrices → Bool
eq_prices p q = p.worker == q.worker && (p.vanguard == q.vanguard && p.ranger == q.ranger)

-- `UnitPrices.base`
unfoldable pub base_prices : Result UnitPrices
unfolding unit_prices
base_prices =
    unit_prices (pos (base_unit_cost worker)) (pos (base_unit_cost vanguard))
      (pos (base_unit_cost ranger))

-- `UnitPrices.for_population`
unfoldable pub prices_for : (population : ℤ) → RulesVersion → Result UnitPrices
unfolding unit_price unit_prices
prices_for population version = do
  w ← unit_price worker population version
  v ← unit_price vanguard population version
  r ← unit_price ranger population version
  unit_prices (pos w) (pos v) (pos r)

-- `UnitPrices.for_role`
abbrev pub price_for_role : UnitPrices → UnitRole → ℕ
price_for_role prices worker = prices.worker
price_for_role prices vanguard = prices.vanguard
price_for_role prices ranger = prices.ranger
