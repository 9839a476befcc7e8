-- ===== src/Domain/Rules.antt =====
-- domain/rules.py: the identities of the rules, and the classification of the game's phase.
use arena_hero_agent.Prelude.{
  ℕ, ◌≤◌, String, Bool, true, false, ◌&&◌, ◌||◌, not, Option, none, some, arith, leb, ltb, str_eq,
  if◌then◌else◌,
}
use arena_hero_agent.Prelude.Int.{ℤ, pos, pos_part, ltb_ℤ}
use arena_hero_agent.Prelude.Exceptions.{Result, ok, raise, value_error, ◌>>=◌, ◌>>◌, raise_if}

pub data RulesVersion : Type 0 where
  v0_11 v0_14 : RulesVersion

-- `parse_rules_version`
pub parse_rules_version : String → Result RulesVersion
parse_rules_version value =
    if str_eq value "v0.11"
    then ok v0_11
    else if str_eq value "v0.14"
    then ok v0_14
    else raise value_error

-- `version is CURRENT_RULES_VERSION`
abbrev pub is_current : RulesVersion → Bool
is_current v0_11 = false
is_current v0_14 = true

-- `assert_current_rules_version`
abbrev pub assert_current_rules_version : RulesVersion → Result (Unit {0})
assert_current_rules_version version = raise_if (not (is_current version)) value_error

-- `_MAX_SAFE_INTEGER`
abbrev pub max_safe_integer : ℕ
max_safe_integer = 9007199254740991

-- An int of 0 to `_MAX_SAFE_INTEGER`; `_nonnegative_safe_int` in economy.py.
unfoldable pub nonnegative_safe_int : ℤ → Result ℕ
nonnegative_safe_int value = do
  raise_if (ltb_ℤ value (pos 0)) value_error
  raise_if (ltb_ℤ (pos max_safe_integer) value) value_error
  ok (pos_part value)

pub data GamePhase : Type 0 where
  early_expansion balanced military : GamePhase

pub record PhaseConfig : Type 0 where
  pub military_population : ℕ
  pub threat_enemies_near_core : ℕ
  pub balanced_population : ℕ
  pub balanced_resources : ℕ

-- `PhaseConfig(...)`, with the checks of `__post_init__`
unfoldable pub phase_config : ℤ → ℤ → ℤ → ℤ → Result PhaseConfig
unfolding nonnegative_safe_int
phase_config strong threat population resources = do
  m ← nonnegative_safe_int strong
  t ← nonnegative_safe_int threat
  p ← nonnegative_safe_int population
  r ← nonnegative_safe_int resources
  raise_if (ltb m p) value_error
  ok (record {
    military_population = m;
    threat_enemies_near_core = t;
    balanced_population = p;
    balanced_resources = r;
  })

pub record PhaseInputs : Type 0 where
  pub population : ℕ
  pub resources : ℕ
  pub enemies_near_core : ℕ

-- `PhaseInputs(...)`
unfoldable pub phase_inputs : ℤ → ℤ → ℤ → Result PhaseInputs
unfolding nonnegative_safe_int
phase_inputs population resources enemies = do
  p ← nonnegative_safe_int population
  r ← nonnegative_safe_int resources
  e ← nonnegative_safe_int enemies
  ok (record { population = p; resources = r; enemies_near_core = e })

unfoldable pub transition_phase :
    GamePhase → PhaseInputs → PhaseConfig → (forced : Option GamePhase) → GamePhase
transition_phase current inputs config (some phase) = phase
transition_phase current inputs config none =
    if leb config.threat_enemies_near_core inputs.enemies_near_core
      || leb config.military_population inputs.population
    then military
    else if leb config.balanced_population inputs.population
        && leb config.balanced_resources inputs.resources
    then balanced
    else early_expansion

-- The phases by their strength.
abbrev pub rank : GamePhase → ℕ
rank early_expansion = 0
rank balanced = 1
rank military = 2

-- Where no phase is forced, more population, more resources and more enemies near the Core never
-- lower the phase, whatever the two current phases are.
pub transition_phase_mono :
    (p q : GamePhase) (config : PhaseConfig) (a b : PhaseInputs)
    → a.population ≤ b.population
    → a.resources ≤ b.resources
    → a.enemies_near_core ≤ b.enemies_near_core
    → rank (transition_phase p a config none) ≤ rank (transition_phase q b config none)
unfolding transition_phase
transition_phase_mono p q config a b x y z = ground arith
