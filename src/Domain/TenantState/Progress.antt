-- ===== src/Domain/TenantState/Progress.antt =====
-- domain/state.py: a turn of a later tick always advances the state of its owner.
use arena_hero_agent.Prelude.{
  ℕ, ◌+◌, ◌≤◌, ◌<◌, ◌≡◌, ◌≢◌, refl, sym, ap, String, false, Option, none, some, inl, inr, length,
  str_eq, eq_iff, arith, Bool-cases,
}
use arena_hero_agent.Prelude.Int.{pos}
use arena_hero_agent.Prelude.Exceptions.{ok}
use arena_hero_agent.Domain.ValueObjects.{DecisionId}
use arena_hero_agent.Domain.Rules.{v0_14, max_safe_integer, nonnegative_safe_int}
use arena_hero_agent.Domain.Economy.State.{EconomyTurnInput, advance}
use arena_hero_agent.Domain.Economy.Checks.{IsChecked}
use arena_hero_agent.Domain.Economy.Reducer.{IsSound, advanced, advance_lem}
use arena_hero_agent.Domain.World.{WorldProjection}
use arena_hero_agent.Domain.World.Equality.{eq_world, eq_world_iff}
use arena_hero_agent.Domain.TenantState.{
  TurnInput, TenantState, tenant_state, is_last_decision, require_owner, record_decision, observe,
  observe_turn, reduce_turn,
}
use arena_hero_agent.Domain.TenantState.Reducers.{IsCoherent}

-- What the checks of a turn establish of its two observations.
pub record IsTurn (turn : TurnInput) : Type 0 where
  pub economy_tick : turn.economy.tick ≡ turn.projection.tick
  pub versions : turn.projection.rules_version ≡ v0_14
  pub populations : turn.economy.population ≡ length turn.projection.units
  pub checked : IsChecked turn.economy

fresh_decision :
    (last : Option DecisionId) (decision : DecisionId)
    → last ≢ some decision
    → is_last_decision decision last ≡ false
fresh_decision none decision h = refl
fresh_decision (some d) decision h = elim (Bool-cases (str_eq decision d)) [
  | inl same ↦ absurd (h (ap some (sym ((eq_iff decision d).0 same))))
  | inr other ↦ other
]

module _ (digest : EconomyTurnInput → String) (s : TenantState) (turn : TurnInput)
    (coherent : IsCoherent s) (sound : IsSound digest s.economy) (t : IsTurn turn)
    (seeds : turn.economy.seed ≡ s.economy.seed) (later : s.world.tick < turn.projection.tick) where
  abbrev observed_state : TenantState
  observed_state = record s {
    world = turn.projection;
    economy = advanced digest s.economy turn.economy;
  }

  advance_later :
      advance digest s.economy turn.economy ≡ ok (advanced digest s.economy turn.economy)
  advance_later = ground (
    arith,
    advance_lem digest s.economy turn.economy sound t.checked,
    coherent.ticks,
    t.economy_tick,
  )

  new_world : eq_world turn.projection s.world ≡ false
  new_world = elim (Bool-cases (eq_world turn.projection s.world)) [
    | inl same ↦ absurd (
        omega (
          arith,
          ap (λ (w : WorldProjection). w.tick) ((eq_world_iff turn.projection s.world).0 same),
        ))
    | inr new ↦ new
  ]

  tenant_state_made :
      (count : ℕ) (last : Option DecisionId)
      → count ≤ max_safe_integer
      → tenant_state s.tenant_id turn.projection
          (advanced digest s.economy turn.economy)
          (pos count)
          last
        ≡ ok (record s {
          world = turn.projection;
          economy = advanced digest s.economy turn.economy;
          decision_count = count;
          last_decision_id = last;
        })
  unfolding tenant_state nonnegative_safe_int
  tenant_state_made count last h =
      ground (arith, t.economy_tick, t.versions, t.populations, t.checked.current)

  observe_made :
      observe digest s turn.projection turn.economy (some s.tenant_id) ≡ ok observed_state
  unfolding observe require_owner
  observe_made = ground (
    arith,
    eq_iff s.tenant_id s.tenant_id,
    advance_later,
    new_world,
    t.economy_tick,
    t.versions,
    t.checked.current,
    tenant_state_made s.decision_count s.last_decision_id,
  )

  -- The owner's turn of a later tick and of the same seed, whose two observations agree and are
  -- checked, with a decision that is not the last one, always reduces a coherent state with a sound
  -- economy: to the state with the turn's world, the advanced economy, one decision more, and the
  -- decision as the last one. The decision count must stay a safe integer.
  pub reduce_turn_succeeds :
      (decision : DecisionId)
      → s.last_decision_id ≢ some decision
      → s.decision_count < max_safe_integer
      → reduce_turn digest s turn decision s.tenant_id
        ≡ ok (record s {
          world = turn.projection;
          economy = advanced digest s.economy turn.economy;
          decision_count = s.decision_count + 1;
          last_decision_id = some decision;
        })
  unfolding reduce_turn observe_turn require_owner record_decision
  reduce_turn_succeeds decision fresh room = ground (
    arith,
    eq_iff s.tenant_id s.tenant_id,
    observe_made,
    fresh_decision s.last_decision_id decision fresh,
    tenant_state_made (s.decision_count + 1) (some decision),
  )
