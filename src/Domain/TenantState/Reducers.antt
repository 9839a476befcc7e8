-- ===== src/Domain/TenantState/Reducers.antt =====
-- domain/state.py: what the reducers of a tenant's state keep and change.
use mathlib.Core.Path.{subst}
use arena_hero_agent.Prelude.{
  ℕ, ◌+◌, ◌≤◌, ◌≡◌, ◌≢◌, refl, sym, ap, ◌∙◌, String, ◌&&◌, inl, inr, Option, none, some, length,
  eq_iff, arith, Bool-cases,
}
use arena_hero_agent.Prelude.Int.{pos}
use arena_hero_agent.Prelude.Exceptions.{
  Exception, ok, raise, duplicate_commit_error, raise_if, Result-cases, >>=-ok,
}
use arena_hero_agent.Domain.ValueObjects.{TenantId, DecisionId}
use arena_hero_agent.Domain.Rules.{max_safe_integer, nonnegative_safe_int}
use arena_hero_agent.Domain.Economy.State.{EconomyTurnInput, EconomyState, advance}
use arena_hero_agent.Domain.World.{WorldProjection}
use arena_hero_agent.Domain.World.Equality.{eq_world, eq_world_iff}
use arena_hero_agent.Domain.TenantState.{
  TurnInput, TenantState, tenant_state, eq_economy, eq_economy_iff, is_last_decision, require_owner,
  record_decision, observe, observe_turn, reduce_turn,
}

-- World and economy of a state agree, and the decision count is a safe integer.
pub record IsCoherent (state : TenantState) : Type 0 where
  pub ticks : state.economy.tick ≡ state.world.tick
  pub versions : state.economy.rules_version ≡ state.world.rules_version
  pub populations : state.economy.population ≡ length state.world.units
  pub counted : state.decision_count ≤ max_safe_integer

-- A state that passes its checks is coherent, and holds what was given.
tenant_state-IsCoherent :
    (tenant : TenantId) (world : WorldProjection) (economy : EconomyState) (count : ℕ)
    (last : Option DecisionId) {state : TenantState}
    → tenant_state tenant world economy (pos count) last ≡ ok state
    → IsCoherent state
      × (state ≡ record {
        tenant_id = tenant;
        world = world;
        economy = economy;
        decision_count = count;
        last_decision_id = last;
      })
unfolding tenant_state nonnegative_safe_int
tenant_state-IsCoherent tenant world economy count last e = ground arith

-- What an observation changes: world and economy alone.
pub record Observes (digest : EconomyTurnInput → String) (s : TenantState) (world : WorldProjection)
    (economy : EconomyTurnInput) (t : TenantState) : Type 0 where
  pub tenant : t.tenant_id ≡ s.tenant_id
  pub count : t.decision_count ≡ s.decision_count
  pub last : t.last_decision_id ≡ s.last_decision_id
  pub seen : t.world ≡ world
  pub folded : advance digest s.economy economy ≡ ok t.economy
  pub onward : s.world.tick ≤ t.world.tick

module _ (digest : EconomyTurnInput → String) where
  observe-Observes :
      (s : TenantState) (world : WorldProjection) (economy : EconomyTurnInput)
      (actor : Option TenantId)
      → IsCoherent s
      → {t : TenantState} → observe digest s world economy actor ≡ ok t
      → IsCoherent t × Observes digest s world economy t
  unfolding observe
  observe-Observes s world economy actor c {t} e =
      elim (Result-cases (advance digest s.economy economy)) [
        | inl (x, bad) ↦ ground arith
        | inr (n, f) ↦ elim (Bool-cases (eq_world world s.world && eq_economy n s.economy)) [
          | inl same ↦ ground (arith, eq_world_iff world s.world, eq_economy_iff n s.economy)
          | inr new ↦ ground (
            arith,
            tenant_state-IsCoherent s.tenant_id world n s.decision_count s.last_decision_id
                {state = t},
          )
        ]
      ]

-- What a turn with its decision changes.
pub record Reduces (digest : EconomyTurnInput → String) (s : TenantState) (turn : TurnInput)
    (decision : DecisionId) (t : TenantState) : Type 0 where
  pub tenant : t.tenant_id ≡ s.tenant_id
  pub count : t.decision_count ≡ s.decision_count + 1
  pub last : t.last_decision_id ≡ some decision
  pub seen : t.world ≡ turn.projection
  pub folded : advance digest s.economy turn.economy ≡ ok t.economy
  pub onward : s.world.tick ≤ t.world.tick

not_last :
    (last : Option DecisionId) (decision : DecisionId) {u : Unit {0}}
    → raise_if (is_last_decision decision last) duplicate_commit_error ≡ ok u
    → last ≢ some decision
not_last none decision e h = cc
not_last (some d) decision e h = ground (arith, eq_iff decision d)

require_owner_lem :
    (s : TenantState) (actor : TenantId) {t : TenantState}
    → require_owner s actor ≡ ok t
    → (actor ≡ s.tenant_id) × (t ≡ s)
unfolding require_owner
require_owner_lem s actor e = ground (arith, eq_iff actor s.tenant_id)

module _ (digest : EconomyTurnInput → String) where
  observe_turn-Observes :
      (s : TenantState) (turn : TurnInput) (actor : TenantId)
      → IsCoherent s
      → {t : TenantState} → observe_turn digest s turn actor ≡ ok t
      → (actor ≡ s.tenant_id) × IsCoherent t × Observes digest s turn.projection turn.economy t
  unfolding observe_turn
  observe_turn-Observes s turn actor c e =
      let (_, owner, observed) = >>=-ok (require_owner s actor) _ e in
      let (coherent, observes) =
        observe-Observes digest s turn.projection turn.economy (some actor) c observed in
      ((require_owner_lem s actor owner).0, coherent, observes)

  -- A decision is recorded once: the count goes up by one, the decision becomes the last one, and it
  -- was not the last one before.
  record_decision_lem :
      (s : TenantState) (decision : DecisionId) (actor : TenantId) {t : TenantState}
      → record_decision s decision (some actor) ≡ ok t
      → IsCoherent t
        × (t ≡ record s { decision_count = s.decision_count + 1; last_decision_id = some decision })
        × (s.last_decision_id ≢ some decision)
  unfolding record_decision
  record_decision_lem s decision actor e =
      let (_, owner, rest) = >>=-ok (require_owner s actor) _ e in
      let (_, fresh, made) =
        >>=-ok (raise_if (is_last_decision decision s.last_decision_id) duplicate_commit_error) _
          rest in
      let (coherent, same) =
        tenant_state-IsCoherent s.tenant_id s.world s.economy (s.decision_count + 1) (some decision)
          made in
      (coherent, same, not_last s.last_decision_id decision fresh)

  -- A turn that is reduced has been authorized by the owner, and its decision is not the one committed
  -- last. World and economy are those of the turn, the decision is counted once and becomes the last
  -- one, the owner stays, the tick of the world never goes back, and the new state is coherent.
  pub reduce_turn-Reduces :
      (s : TenantState) (turn : TurnInput) (decision : DecisionId) (actor : TenantId)
      → IsCoherent s
      → {t : TenantState} → reduce_turn digest s turn decision actor ≡ ok t
      → (actor ≡ s.tenant_id)
        × (s.last_decision_id ≢ some decision)
        × IsCoherent t
        × Reduces digest s turn decision t
  unfolding reduce_turn
  reduce_turn-Reduces s turn decision actor c e =
      let (_, owner, rest) = >>=-ok (require_owner s actor) _ e in
      let (o, observed, recorded) = >>=-ok (observe_turn digest s turn actor) _ rest in
      let (own, coherent, observes) = observe_turn-Observes s turn actor c observed in
      let (new, same, fresh) = record_decision_lem o decision actor recorded in
      (
        own,
        (λ h. fresh (observes.last ∙ h)),
        new,
        subst (Reduces digest s turn decision) (sym same) (record {
          tenant = observes.tenant;
          count = ap (λ n. n + 1) observes.count;
          last = refl;
          seen = observes.seen;
          folded = observes.folded;
          onward = observes.onward;
        }),
      )

  -- The decision that was committed last cannot be committed by the next turn, whatever the turn: the
  -- reducer raises.
  pub reduce_turn_once :
      (s : TenantState) (turn next_turn : TurnInput) (decision : DecisionId) (actor : TenantId)
      → IsCoherent s
      → {t : TenantState} → reduce_turn digest s turn decision actor ≡ ok t
      → (e : Exception) × (reduce_turn digest t next_turn decision actor ≡ raise e)
  reduce_turn_once s turn next_turn decision actor c {t} e =
      let (_, _, coherent, reduces) = reduce_turn-Reduces s turn decision actor c e in
      elim (Result-cases (reduce_turn digest t next_turn decision actor)) [
        | inl (x, raised) ↦ (x, raised)
        | inr (u, again) ↦
            absurd ((reduce_turn-Reduces t next_turn decision actor coherent again).1 reduces.last)
      ]
