-- ===== src/Prelude/Exceptions.antt =====
-- Python exceptions as values: what a fallible call of the program returns. Type errors are ruled
-- out by the types of the model.
use mathlib.Core.Path.{◌≡◌, refl}
use mathlib.Core.Logic.{◌⊎◌, inl, inr}
use mathlib.Core.Bool.{Bool, true, false}
use native.Mathlib.Omega.{arith}

pub data Exception : Type 0 where
  value_error key_error runtime_error assertion_error : Exception
  unreachable_error search_limit_exceeded : Exception
  unauthorized_plan_write corrupt_plan_error command_bus_error : Exception
  ownership_error duplicate_commit_error state_recovery_error duplicate_decision_error : Exception
  decision_lease_unavailable stale_decision_context state_commit_conflict : Exception
  -- no exception of the program: a loop of the model ran out of its fuel
  out_of_fuel : Exception

pub data Result {ℓ} (A : Type ℓ) : Type ℓ where
  ok : A → Result A
  raise : Exception → Result A

infixl 5 ◌>>=◌ ◌>>◌
abbrev pub ◌>>=◌ {ℓ κ} : {A : Type ℓ} {B : Type κ} → Result A → (A → Result B) → Result B
ok a >>= f = f a
raise e >>= f = raise e

abbrev pub ◌>>◌ {ℓ κ} : {A : Type ℓ} {B : Type κ} → Result A → Result B → Result B
m >> k = m >>= λ _. k

-- `if test: raise e`
abbrev pub raise_if : Bool → Exception → Result (Unit {0})
raise_if true e = raise e
raise_if false e = ok tt

module _ {ℓ} {A : Type ℓ} where
  pub Result-cases : (r : Result A) → ((e : Exception) × (r ≡ raise e)) ⊎ ((a : A) × (r ≡ ok a))
  Result-cases (ok a) = inr (a, refl)
  Result-cases (raise e) = inl (e, refl)

  pub ok-injective : {a b : A} → ok a ≡ ok b → a ≡ b
  ok-injective e = cc

  -- A chain that returns has returned from its first part.
  pub >>=-ok {κ} :
      {B : Type κ} (r : Result A) (f : A → Result B) {b : B}
      → (r >>= f) ≡ ok b
      → (a : A) × (r ≡ ok a) × (f a ≡ ok b)
  >>=-ok (ok a) f e = (a, refl, e)
  >>=-ok (raise x) f {b} e = ground arith
