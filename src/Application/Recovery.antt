-- ===== src/Application/Recovery.antt =====
-- application/decision.py: `_recover`, the replay of a tenant's journal against its snapshot, over the
-- memory adapters. The two digests, hashes of canonical texts, are parameters.
pub mod Replay
use arena_hero_agent.Prelude.{
  ℕ, Bool, true, false, ◌&&◌, ◌||◌, not, String, Option, none, some, List, [], ◌∷◌, ltb, str_eq,
  if◌then◌else◌,
}
use arena_hero_agent.Prelude.Int.{pos}
use arena_hero_agent.Prelude.Dict.{Dict, lookup, mem_text}
use arena_hero_agent.Prelude.Exceptions.{
  Exception, Result, ok, raise, value_error, ownership_error, duplicate_commit_error,
  duplicate_decision_error, state_recovery_error, ◌>>=◌, ◌>>◌, raise_if,
}
use arena_hero_agent.Domain.ValueObjects.{TenantId, DecisionId, Generation, next_generation}
use arena_hero_agent.Domain.Economy.State.{EconomyTurnInput}
use arena_hero_agent.Domain.TenantState.{
  TurnInput, TenantState, eq_tenant, require_owner, reduce_turn, record_decision, is_last_decision,
}
use arena_hero_agent.Runtime.StateStore.{
  StateView, Snapshot, States, eq_generation, load, restore, LeaseView,
}
use arena_hero_agent.Runtime.Journal.{DecisionJournalEntry, read_from}

-- The digests of an economic input and of a tenant's state.
pub record Digests : Type 0 where
  pub economy_input : EconomyTurnInput → String
  pub tenant_state : TenantState → String

abbrev pub Entry : Type 0
Entry = DecisionJournalEntry TurnInput TenantState

-- `_RecoveredTenant`
pub record RecoveredTenant : Type 0 where
  pub generation : Generation
  pub state_digest : String
  pub state : TenantState
  pub committed_decision_ids : List DecisionId

-- Whether `except (TypeError, ValueError)` catches it.
abbrev pub is_value_error : Exception → Bool
is_value_error value_error = true
is_value_error ownership_error = true
is_value_error duplicate_commit_error = true
is_value_error _ = false

-- `except (TypeError, ValueError) as error: raise StateRecoveryError`
abbrev pub as_recovery_error {ℓ} : {A : Type ℓ} → Result A → Result A
as_recovery_error (ok a) = ok a
as_recovery_error (raise e) = if is_value_error e then raise state_recovery_error else raise e

module _ (digests : Digests) where
  -- The loop of `_recover` over the entries, with its variables.
  unfoldable pub replay_entries :
      TenantId
      → Generation
      → TenantState
      → (state_digest : String) → (seen : List DecisionId) → List Entry
      → Result RecoveredTenant
  replay_entries tenant generation state digest seen [] = ok (record {
    generation = generation;
    state_digest = digest;
    state = state;
    committed_decision_ids = seen;
  })
  replay_entries tenant generation state digest seen (entry ∷ entries) = do
    raise_if (not (str_eq entry.tenant_id tenant)) state_recovery_error
    raise_if
        (not (eq_generation entry.previous_generation generation)
          || not (eq_generation entry.generation (next_generation generation)))
        state_recovery_error
    raise_if (not (str_eq entry.previous_state_digest digest)) state_recovery_error
    raise_if (mem_text entry.decision_id seen) state_recovery_error
    replayed ←
        as_recovery_error
          (reduce_turn digests.economy_input state entry.turn entry.decision_id tenant)
    raise_if
        (not (eq_tenant replayed entry.state)
          || not (str_eq (digests.tenant_state replayed) entry.state_digest))
        state_recovery_error
    replay_entries tenant entry.generation replayed (digests.tenant_state replayed)
        (entry.decision_id ∷ seen) entries

  -- The checks of the stored snapshot against the replayed revision.
  unfoldable pub check_stored :
      TenantId → RecoveredTenant → Option (Snapshot TenantState) → Result (Unit {0})
  check_stored tenant recovered none = ok tt
  check_stored tenant recovered (some stored) = do
    as_recovery_error (require_owner stored.state tenant)
    raise_if (not (str_eq (digests.tenant_state stored.state) stored.state_digest))
        state_recovery_error
    raise_if (ltb recovered.generation.value stored.generation.value) state_recovery_error
    raise_if
        (eq_generation stored.generation recovered.generation
          && (not (str_eq stored.state_digest recovered.state_digest)
              || not (eq_tenant stored.state recovered.state)))
        state_recovery_error

  -- `DecisionArbiter._recover`
  unfoldable pub recover :
      TenantState → Generation → Dict (List Entry) → States TenantState → Result RecoveredTenant
  unfolding replay_entries check_stored
  recover initial generation journal states = do
    entries ← read_from initial.tenant_id (pos 0) journal
    recovered ←
        replay_entries initial.tenant_id generation initial (digests.tenant_state initial) []
          entries
    check_stored initial.tenant_id recovered (load initial.tenant_id states)
    ok recovered

-- `_same_revision`
abbrev pub same_revision : RecoveredTenant → RecoveredTenant → Bool
same_revision a b =
    eq_generation a.generation b.generation
    && (str_eq a.state_digest b.state_digest && eq_tenant a.state b.state)

-- `except ValueError as error: raise DuplicateDecisionError`
abbrev pub as_duplicate : Result TenantState → Result (Unit {0})
as_duplicate (ok _) = ok tt
as_duplicate (raise e) = if is_value_error e then raise duplicate_decision_error else raise e

-- `_reject_duplicate`: either way of a committed id ends in a DuplicateDecisionError
unfoldable pub reject_duplicate : RecoveredTenant → DecisionId → Result (Unit {0})
unfolding mem_text
reject_duplicate recovered decision =
    if not (mem_text decision recovered.committed_decision_ids)
    then ok tt
    else if is_last_decision decision recovered.state.last_decision_id
    then (as_duplicate (record_decision recovered.state decision (some recovered.state.tenant_id))
        >> raise duplicate_decision_error)
    else raise duplicate_decision_error
