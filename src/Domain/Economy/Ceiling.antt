-- ===== src/Domain/Economy/Ceiling.antt =====
-- domain/economy.py: the search for the largest exponent whose price is a safe integer.
use Prim.Native.Nat.{◌^◌}
use native.Mathlib.Nat.{pow-succ', one-le-pow, le-div_iff_mul-le}
use mathlib.Core.Path.{subst}
use arena_hero_agent.Prelude.{
  ℕ, zero, suc, ◌+◌, ◌*◌, ◌≤◌, ◌<◌, ◌≡◌, refl, ◌⊎◌, inl, inr, ltb, ltb→lt, false, arith, Bool-cases,
}
use arena_hero_agent.Prelude.Exceptions.{ok}
use arena_hero_agent.Domain.Rules.{max_safe_integer}
use arena_hero_agent.Domain.Economy.{
  round_half_up, maximum_safe_exponent_loop, maximum_safe_exponent,
}

-- A quotient that is at least `k` in exact arithmetic is so after rounding.
le-round_half_up : (k n d : ℕ) → 0 < d → k * d ≤ n → k ≤ round_half_up n d
le-round_half_up k n d h p =
    (le-div_iff_mul-le {x = k} {y = 2 * n + d} (omega arith)).1 (grind arith)

-- The price of a base cost at an exponent.
abbrev pub base_price : ℕ → ℕ → ℕ
base_price base exponent = round_half_up (base * 13 ^ exponent) (10 ^ exponent)

-- `e` is the last exponent before the first one whose price is no safe integer.
pub record IsCeiling (base e : ℕ) : Type 0 where
  pub above : max_safe_integer < base_price base (suc e)
  pub within : (e ≡ 0) ⊎ (base_price base e ≤ max_safe_integer)

not-ltb : {a b : ℕ} → ltb a b ≡ false → b ≤ a
not-ltb h = ground arith

module _ (base : ℕ) where
  -- 1.3 ^ e ≥ 1 + 0.3 e
  growth : (e : ℕ) → 0 < base → 10 ^ e * (10 + 3 * e) ≤ base * 13 ^ e * 10
  growth zero h = omega arith
  growth (suc e) h =
      rw (pow-succ' 10 e, pow-succ' 13 e) (grind (arith, growth e h, one-le-pow e 10 (omega arith)))

  -- Far enough out no price is a safe integer.
  price_grows :
      (e : ℕ) → 0 < base → 10 * max_safe_integer + 10 ≤ 3 * e → max_safe_integer < base_price base e
  price_grows e h far =
      le-round_half_up (suc max_safe_integer) (base * 13 ^ e) (10 ^ e)
        (one-le-pow e 10 (omega arith)) (grind (arith, growth e h))

  next_numerator : (e : ℕ) {num : ℕ} → num ≡ base * 13 ^ e → num * 13 ≡ base * 13 ^ suc e
  next_numerator e p = rw (p, pow-succ' 13 e) (grind arith)

  next_denominator : (e : ℕ) {den : ℕ} → den ≡ 10 ^ e → den * 10 ≡ 10 ^ suc e
  next_denominator e p = rw (p, pow-succ' 10 e) (omega arith)

  -- The price that the loop computes next.
  next_price :
      (e : ℕ) {num den : ℕ}
      → num ≡ base * 13 ^ e
      → den ≡ 10 ^ e
      → round_half_up (num * 13) (den * 10) ≡ base_price base (suc e)
  next_price e p q = rw (next_numerator e p, next_denominator e q)

  loop_lem :
      (fuel e num den : ℕ)
      → 0 < base
      → num ≡ base * 13 ^ e
      → den ≡ 10 ^ e
      → 10 * max_safe_integer + 10 ≤ 3 * (e + fuel)
      → (e ≡ 0) ⊎ (base_price base e ≤ max_safe_integer)
      → (k : ℕ) × (maximum_safe_exponent_loop fuel e num den ≡ ok k) × IsCeiling base k
  unfolding maximum_safe_exponent_loop
  loop_lem zero e num den h p q enough within = absurd (elim within [
    | inl z ↦ omega (arith, z)
    | inr small ↦ omega (arith, small, price_grows e h (omega arith))
  ])
  loop_lem (suc fuel) e num den h p q enough within =
      elim (Bool-cases (ltb max_safe_integer (round_half_up (num * 13) (den * 10)))) [
        | inl found ↦ (
          e,
          rw found,
          record { above = rw (next_price e p q) at (ltb→lt _ _ found); within = within },
        )
        | inr more ↦ rw more (
            subst
              (λ n.
                (k : ℕ) × (maximum_safe_exponent_loop fuel n (num * 13) (den * 10) ≡ ok k)
                × IsCeiling base k)
              (omega arith)
              (loop_lem fuel (suc e) (num * 13) (den * 10) h (next_numerator e p)
                (next_denominator e q) (omega arith)
                (inr (rw (next_price e p q) at (not-ltb more)))))
      ]

-- For each positive base cost the loop of `_maximum_safe_exponent` ends, within a third of
-- 10 * max + 10 rounds for the largest safe integer max, and what it returns is the last exponent
-- before the first one whose rounded price is no safe integer: the next price is too large, and this
-- one is safe unless the exponent is 0.
pub maximum_safe_exponent_lem :
    (fuel base : ℕ)
    → 0 < base
    → 10 * max_safe_integer + 10 ≤ 3 * fuel
    → (k : ℕ) × (maximum_safe_exponent fuel base ≡ ok k) × IsCeiling base k
unfolding maximum_safe_exponent
maximum_safe_exponent_lem fuel base h enough =
    loop_lem base fuel 0 base 1 h (omega arith) refl (omega arith) (inl refl)
