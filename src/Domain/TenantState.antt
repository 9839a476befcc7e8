-- ===== src/Domain/TenantState.antt =====
-- domain/state.py: the authoritative state of one tenant and its reducers. The digest of an economic
-- input is a parameter, as in the economy. StateOwnershipError is `ownership_error`, and the
-- ValueError whose text says "duplicate decision commit" is `duplicate_commit_error`.
pub mod Reducers
pub mod Progress
pub mod Samples
mod Tests
use native.Mathlib.Decide.{ℕ_discrete}
use arena_hero_agent.Prelude.{
  ℕ, ◌+◌, ◌≡◌, refl, ◌↔◌, String, Bool, true, false, ◌&&◌, not, Option, none, some, length, str_eq,
  ltb, ◌==◌, eq_iff, if◌then◌else◌, arith,
}
use arena_hero_agent.Prelude.Int.{ℤ, pos}
use arena_hero_agent.Prelude.Exceptions.{
  Result, ok, raise, value_error, ownership_error, duplicate_commit_error, ◌>>=◌, ◌>>◌, raise_if,
}
use arena_hero_agent.Domain.ValueObjects.{TenantId, DecisionId}
use arena_hero_agent.Domain.Rules.{
  assert_current_rules_version, max_safe_integer, nonnegative_safe_int,
}
use arena_hero_agent.Domain.Economy.State.{EconomyTurnInput, EconomyState, advance, same_version}
use arena_hero_agent.Domain.World.{WorldProjection}
use arena_hero_agent.Domain.World.Equality.{eq_world, String-discrete}

pub record TurnInput : Type 0 where
  pub tick : ℕ
  pub projection : WorldProjection
  pub economy : EconomyTurnInput

-- `TurnInput(...)`, with the checks of `__post_init__`
unfoldable pub turn_input : ℤ → WorldProjection → EconomyTurnInput → Result TurnInput
turn_input tick projection economy = do
  t ← nonnegative_safe_int tick
  raise_if (not (projection.tick == t)) value_error
  raise_if (not (economy.tick == t)) value_error
  raise_if (not (same_version economy.rules_version projection.rules_version)) value_error
  raise_if (not (economy.population == length projection.units)) value_error
  ok (record { tick = t; projection = projection; economy = economy })

pub record TenantState : Type 0 where
  pub tenant_id : TenantId
  pub world : WorldProjection
  pub economy : EconomyState
  pub decision_count : ℕ
  pub last_decision_id : Option DecisionId

-- `TenantState(...)`, with the checks of `__post_init__`
unfoldable pub tenant_state :
    TenantId
    → WorldProjection
    → EconomyState
    → (decision_count : ℤ) → Option DecisionId
    → Result TenantState
tenant_state tenant world economy count last = do
  raise_if (not (economy.tick == world.tick)) value_error
  raise_if (not (same_version economy.rules_version world.rules_version)) value_error
  raise_if (not (economy.population == length world.units)) value_error
  c ← nonnegative_safe_int count
  ok (record {
    tenant_id = tenant;
    world = world;
    economy = economy;
    decision_count = c;
    last_decision_id = last;
  })

EconomyState-discrete : Discrete EconomyState
EconomyState-discrete = hlevel (ℕ_discrete, String-discrete)

-- `next_economy == self.economy`
unfoldable pub eq_economy : EconomyState → EconomyState → Bool
unfolding EconomyState-discrete
eq_economy a b = elim (EconomyState-discrete a b) [ yes _ ↦ true | no _ ↦ false ]

pub eq_economy_iff : (a b : EconomyState) → (eq_economy a b ≡ true) ↔ (a ≡ b)
unfolding eq_economy
eq_economy_iff a b = ground arith

TenantState-discrete : Discrete TenantState
TenantState-discrete = hlevel (ℕ_discrete, String-discrete)

-- The `==` that the dataclass derives.
unfoldable pub eq_tenant : TenantState → TenantState → Bool
unfolding TenantState-discrete
eq_tenant a b = elim (TenantState-discrete a b) [ yes _ ↦ true | no _ ↦ false ]

pub eq_tenant_iff : (a b : TenantState) → (eq_tenant a b ≡ true) ↔ (a ≡ b)
unfolding eq_tenant
eq_tenant_iff a b = ground arith

-- `TenantState.require_owner`, which returns the state or raises
unfoldable pub require_owner : TenantState → TenantId → Result TenantState
require_owner state actor = if str_eq actor state.tenant_id then ok state else raise ownership_error

-- `require_owner` where an actor is declared
abbrev pub authorize : TenantState → Option TenantId → Result TenantState
authorize state none = ok state
authorize state (some actor) = require_owner state actor

-- `decision_id == self.last_decision_id`
abbrev pub is_last_decision : DecisionId → Option DecisionId → Bool
is_last_decision decision none = false
is_last_decision decision (some last) = str_eq decision last

-- `TenantState.record_decision`
unfoldable pub record_decision : TenantState → DecisionId → Option TenantId → Result TenantState
unfolding require_owner
record_decision state decision actor = do
  authorize state actor
  raise_if (is_last_decision decision state.last_decision_id) duplicate_commit_error
  tenant_state state.tenant_id state.world state.economy (pos (state.decision_count + 1))
      (some decision)

module _ (digest : EconomyTurnInput → String) where
  -- `TenantState.observe`
  unfoldable pub observe :
      TenantState → WorldProjection → EconomyTurnInput → Option TenantId → Result TenantState
  unfolding require_owner
  observe state world economy actor = do
    authorize state actor
    assert_current_rules_version world.rules_version
    raise_if (not (economy.tick == world.tick)) value_error
    raise_if (not (same_version economy.rules_version world.rules_version)) value_error
    raise_if (ltb world.tick state.world.tick) value_error
    raise_if (world.tick == state.world.tick && not (eq_world world state.world)) value_error
    next_economy ← advance digest state.economy economy
    if eq_world world state.world && eq_economy next_economy state.economy
        then ok state
        else tenant_state state.tenant_id world next_economy (pos state.decision_count)
            state.last_decision_id

  -- `TenantState.observe_turn`
  unfoldable pub observe_turn : TenantState → TurnInput → TenantId → Result TenantState
  unfolding require_owner
  observe_turn state turn actor = do
    require_owner state actor
    observe state turn.projection turn.economy (some actor)

  -- `TenantState.reduce_turn`
  unfoldable pub reduce_turn : TenantState → TurnInput → DecisionId → TenantId → Result TenantState
  unfolding require_owner
  reduce_turn state turn decision actor = do
    require_owner state actor
    observed ← observe_turn state turn actor
    record_decision observed decision (some actor)
