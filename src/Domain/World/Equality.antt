-- ===== src/Domain/World/Equality.antt =====
-- domain/world.py: the `==` that the dataclass of a projection derives, field by field.
use native.Mathlib.Decide.{ℕ_discrete}
use arena_hero_agent.Prelude.{◌≡◌, refl, String, Bool, true, false, ◌↔◌, str_eq, eq_iff, arith}
use arena_hero_agent.Domain.World.{WorldProjection}

text_decided : (s t : String) (b : Bool) → str_eq s t ≡ b → Dec (s ≡ t)
text_decided s t true e = yes ((eq_iff s t).0 e)
text_decided s t false n = no (λ e. ground (arith, eq_iff s t))

pub String-discrete : Discrete String
String-discrete s t = text_decided s t (str_eq s t) refl

WorldProjection-discrete : Discrete WorldProjection
WorldProjection-discrete = hlevel (ℕ_discrete, String-discrete)

-- `world == other`
unfoldable pub eq_world : WorldProjection → WorldProjection → Bool
unfolding WorldProjection-discrete text_decided String-discrete ℕ_discrete
eq_world a b = elim (WorldProjection-discrete a b) [ yes _ ↦ true | no _ ↦ false ]

pub eq_world_iff : (a b : WorldProjection) → (eq_world a b ≡ true) ↔ (a ≡ b)
unfolding eq_world
eq_world_iff a b = ground arith
