-- ===== src/Domain/Economy/Pricing.antt =====
-- domain/economy.py: rounding, growth and range of the unit prices.
use Prim.Native.Nat.{◌^◌}
use native.Mathlib.Nat.{
  pow-succ', one-le-pow, le-div_iff_mul-le, zero-add, suc-add, div-mul-le_self, lt-mul-div-succ,
}
use mathlib.Core.Path.{subst}
use arena_hero_agent.Prelude.{
  ℕ, zero, suc, ◌+◌, ◌-◌, ◌*◌, ◌≤◌, ◌<◌, ◌≡◌, refl, ◌&&◌, if◌then◌else◌, arith,
}
use arena_hero_agent.Prelude.Int.{ℤ, pos, negsuc, leb_ℤ, pos_part}
use arena_hero_agent.Prelude.Exceptions.{ok, raise, value_error}
use arena_hero_agent.Domain.Rules.{
  RulesVersion, v0_11, v0_14, is_current, max_safe_integer, nonnegative_safe_int,
}
use arena_hero_agent.Domain.Economy.{
  UnitRole, worker, vanguard, ranger, base_unit_cost, positive_safe_int, pricing_exponent,
  round_half_up, price_at, price_exponent_limit, unit_price,
}

-- The rounded quotient is the nearest whole number, a half rounding up.
abbrev pub IsNearest : (numerator denominator price : ℕ) → Type 0
IsNearest n d price = (price * (2 * d) ≤ 2 * n + d) × (2 * n + d < price * (2 * d) + 2 * d)

round_half_up-IsNearest : (n d : ℕ) → 0 < d → IsNearest n d (round_half_up n d)
round_half_up-IsNearest n d h =
    (div-mul-le_self (2 * n + d) (2 * d), grind (arith, lt-mul-div-succ (2 * n + d) {b = 2 * d}))

round_half_up-grow : (n d : ℕ) → 0 < d → round_half_up n d ≤ round_half_up (13 * n) (10 * d)
round_half_up-grow n d h =
    (le-div_iff_mul-le {x = round_half_up n d} {y = 2 * (13 * n) + 10 * d} (omega arith)).1
      (grind (arith, div-mul-le_self (2 * n + d) (2 * d)))

-- One step up the exponents never lowers a price.
price_at-suc : (role : UnitRole) (e : ℕ) → price_at role e ≤ price_at role (suc e)
unfolding price_at
price_at-suc role e =
    rw (pow-succ' 10 e, pow-succ' 13 e, shift)
      (round_half_up-grow (base_unit_cost role * 13 ^ e) (10 ^ e) (one-le-pow e 10 (omega arith)))
  where
    shift : base_unit_cost role * (13 * 13 ^ e) ≡ 13 * (base_unit_cost role * 13 ^ e)
    shift = grind arith

price_at_mono : (role : UnitRole) (e k : ℕ) → price_at role e ≤ price_at role (k + e)
price_at_mono role e zero = rw (zero-add e) (omega arith)
price_at_mono role e (suc k) =
    rw (suc-add k e) (omega (arith, price_at_mono role e k, price_at-suc role (k + e)))

pricing_exponent_mono : (p q : ℕ) → p ≤ q → pricing_exponent p ≤ pricing_exponent q
unfolding pricing_exponent
pricing_exponent_mono p q h = ground arith

price_at-le : (role : UnitRole) (e f : ℕ) → e ≤ f → price_at role e ≤ price_at role f
price_at-le role e f h =
    subst (λ n. price_at role e ≤ price_at role n) (omega arith) (price_at_mono role e (f - e))

-- At exponent 0 the price is positive, and at the last exponent it is safe.
price_at_first : (role : UnitRole) → 0 < price_at role 0
unfolding price_at
price_at_first worker = omega arith
price_at_first vanguard = omega arith
price_at_first ranger = omega arith

price_at_last : (role : UnitRole) → price_at role price_exponent_limit ≤ max_safe_integer
unfolding price_at
price_at_last worker = omega arith
price_at_last vanguard = omega arith
price_at_last ranger = omega arith

pub price_in_range :
    (role : UnitRole) (e : ℕ)
    → e ≤ price_exponent_limit
    → (0 < price_at role e) × (price_at role e ≤ max_safe_integer)
price_in_range role e h = omega (
  arith,
  price_at_first role,
  price_at_last role,
  price_at-le role 0 e (omega arith),
  price_at-le role e price_exponent_limit h,
)

-- A unit has a price under the current rules and for 0 to 669 units, and only then; it is the price
-- at the exponent of the population, which passes the last check. All else is a ValueError.
pub unit_price_lem :
    (role : UnitRole) (population : ℤ) (version : RulesVersion)
    → unit_price role population version ≡ (
        if is_current version && leb_ℤ (pos 0) population && leb_ℤ population (pos 669)
        then ok (price_at role (pricing_exponent (pos_part population)))
        else raise value_error)
unfolding unit_price nonnegative_safe_int positive_safe_int pricing_exponent
unit_price_lem role population v0_11 = refl
unit_price_lem role (negsuc n) v0_14 = ground arith
unit_price_lem role (pos n) v0_14 = ground (arith, price_in_range role (pricing_exponent n))

price_at-IsNearest :
    (role : UnitRole) (e : ℕ) → IsNearest (base_unit_cost role * 13 ^ e) (10 ^ e) (price_at role e)
unfolding price_at
price_at-IsNearest role e =
    round_half_up-IsNearest (base_unit_cost role * 13 ^ e) (10 ^ e) (one-le-pow e 10 (omega arith))

exponent_fits : (n : ℕ) → n ≤ 669 → pricing_exponent n ≤ price_exponent_limit
unfolding pricing_exponent
exponent_fits n h = ground arith

unit_price_inversion :
    (role : UnitRole) (n : ℕ) (version : RulesVersion) {price : ℕ}
    → unit_price role (pos n) version ≡ ok price
    → (price_at role (pricing_exponent n) ≡ price) × (pricing_exponent n ≤ price_exponent_limit)
unit_price_inversion role n version e =
    ground (arith, unit_price_lem role (pos n) version, exponent_fits n)

-- A price that is returned is the base cost times 1.3 to the exponent of the population, rounded
-- half up to a whole number; it is positive and a safe integer.
pub unit_price_bounds :
    (role : UnitRole) (population : ℕ) (version : RulesVersion) {price : ℕ}
    → unit_price role (pos population) version ≡ ok price
    → IsNearest
        (base_unit_cost role * 13 ^ pricing_exponent population)
        (10 ^ pricing_exponent population)
        price
      × (0 < price)
      × (price ≤ max_safe_integer)
unit_price_bounds role population version {price} e =
    let (same, fits) = unit_price_inversion role population version e in
    subst
      (λ p.
        IsNearest (base_unit_cost role * 13 ^ pricing_exponent population)
          (10 ^ pricing_exponent population) p
        × (0 < p)
        × (p ≤ max_safe_integer))
      same
      (
        price_at-IsNearest role (pricing_exponent population),
        (price_in_range role _ fits).0,
        (price_in_range role _ fits).1,
      )

-- More units never make a unit cheaper.
pub unit_price_mono :
    (role : UnitRole) (p q : ℕ) (version : RulesVersion) {x y : ℕ}
    → p ≤ q
    → unit_price role (pos p) version ≡ ok x
    → unit_price role (pos q) version ≡ ok y
    → x ≤ y
unit_price_mono role p q version h e f = ground (
  arith,
  unit_price_lem role (pos p) version,
  unit_price_lem role (pos q) version,
  price_at-le role (pricing_exponent p) (pricing_exponent q) (pricing_exponent_mono p q h),
)
