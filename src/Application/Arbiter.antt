-- ===== src/Application/Arbiter.antt =====
-- application/decision.py: DecisionArbiter, which acquires the two leases of a decision and commits it
-- to journal and state store. Over the memory adapters no await suspends: each lock is free, since no
-- adapter awaits while it holds one. So an operation of the arbiter is one change of the stores. The
-- readings of the clock are an argument, numbered in the order of the calls.
mod Prepare
pub mod Commit
pub mod Recommit
pub mod Leases
pub mod Acquire
pub mod FailClosed
pub mod Denied
mod Tests
use arena_hero_agent.Prelude.{
  ℕ, ◌≡◌, Bool, true, false, ◌&&◌, not, String, Option, none, some, List, [], ◌∷◌, str_eq,
  if◌then◌else◌,
}
use arena_hero_agent.Prelude.Dict.{Dict}
use arena_hero_agent.Prelude.Exceptions.{
  Exception, Result, ok, raise, value_error, duplicate_commit_error, duplicate_decision_error,
  decision_lease_unavailable, stale_decision_context, state_commit_conflict, ◌>>=◌, ◌>>◌, raise_if,
}
use arena_hero_agent.Domain.ValueObjects.{
  TenantId, DecisionId, Generation, next_generation, DeadlineBudget,
}
use arena_hero_agent.Domain.TenantState.{
  TurnInput, TenantState, eq_tenant, require_owner, observe_turn, reduce_turn,
}
use arena_hero_agent.Runtime.Leases.{
  Coordinator, disposition, renew, release, acquire_writer, acquire_decision,
}
use arena_hero_agent.Runtime.StateStore.{
  StateView, Snapshot, States, LeaseView, lease_view, is_active, eq_generation, load, restore,
  compare_and_set,
}
use arena_hero_agent.Runtime.Journal.{journal_entry, append}
use arena_hero_agent.Application.Recovery.{
  Digests, Entry, RecoveredTenant, recover, same_revision, reject_duplicate,
}

pub record DecisionContext : Type 0 where
  pub tenant_id : TenantId
  pub generation : Generation
  pub state_digest : String
  pub state : TenantState
  pub turn : TurnInput
  pub decision_id : DecisionId

pub record CommittedDecision : Type 0 where
  pub generation : Generation
  pub state_digest : String
  pub state : TenantState
  pub journal_position : ℕ

-- A ticket holds its two leases by reference.
pub record DecisionTicket : Type 0 where
  pub context : DecisionContext
  pub decision_lease : ℕ
  pub writer_lease : ℕ
  pub initial_state : TenantState
  pub initial_generation : Generation
  pub closed : Bool

-- What the arbiter reaches through its four ports; one coordinator serves both kinds of leases.
pub record Stores : Type 0 where
  pub journal : Dict (List Entry)
  pub states : States TenantState
  pub leases : Coordinator

-- `DecisionTicket.close`; an exception of the second release replaces one of the first.
unfoldable pub close : DecisionTicket → Stores → Result (Unit {0}) × DecisionTicket × Stores
close ticket stores =
    if ticket.closed
    then (ok tt, ticket, stores)
    else let (first, leases) = release ticket.decision_lease stores.leases in
      let (second, leases') = release ticket.writer_lease leases in
      (second >> first, record ticket { closed = true }, record stores { leases = leases' })

-- One more disjunct of the condition: a renewal, if those before it have succeeded.
abbrev pub and_renew :
    Result Bool × Coordinator
    → (Coordinator → Result Bool × Coordinator)
    → Result Bool × Coordinator
and_renew (ok true, s) k = k s
and_renew (ok false, s) k = (ok false, s)
and_renew (raise e, s) k = (raise e, s)

-- Whether both leases are active and are renewed.
unfoldable pub leases_current :
    (clock : ℕ → ℕ) → DeadlineBudget → DecisionTicket → Coordinator → Result Bool × Coordinator
leases_current clock budget ticket s =
    if not (is_active (disposition ticket.writer_lease (clock 0) s))
    then (ok false, s)
    else if not (is_active (disposition ticket.decision_lease (clock 1) s))
    then (ok false, s)
    else and_renew (renew ticket.writer_lease budget (clock 2) (clock 3) s)
        (renew ticket.decision_lease budget (clock 4) (clock 5))

-- `"duplicate decision commit" in str(error)`
abbrev pub is_duplicate_commit : Exception → Bool
is_duplicate_commit duplicate_commit_error = true
is_duplicate_commit _ = false

-- `except ValueError` of the reducer: the text of a duplicate commit becomes a DuplicateDecisionError
abbrev pub as_duplicate_decision : Result TenantState → Result TenantState
as_duplicate_decision (ok state) = ok state
as_duplicate_decision (raise e) =
    if is_duplicate_commit e then raise duplicate_decision_error else raise e

-- The revision that a ticket was made for.
abbrev pub revision_of : DecisionContext → RecoveredTenant
revision_of context = record {
  generation = context.generation;
  state_digest = context.state_digest;
  state = context.state;
  committed_decision_ids = [];
}

module _ (digests : Digests) where
  abbrev pub view : StateView TenantState
  view = record { owner = λ s. s.tenant_id; digest = digests.tenant_state; equal = eq_tenant }

  -- The part of `commit` between the renewals and the append, which changes nothing.
  unfoldable pub prepare : DecisionTicket → Stores → Result Entry
  prepare ticket stores = do
    let context = ticket.context
    current ←
        recover digests ticket.initial_state ticket.initial_generation stores.journal stores.states
    raise_if (not (same_revision current (revision_of context))) stale_decision_context
    reject_duplicate current context.decision_id
    state ← as_duplicate_decision (
        reduce_turn digests.economy_input context.state context.turn context.decision_id
          context.tenant_id)
    journal_entry view (λ s. s.last_decision_id)
        (record {
          tenant_id = context.tenant_id;
          previous_generation = context.generation;
          generation = next_generation context.generation;
          previous_state_digest = context.state_digest;
          state_digest = digests.tenant_state state;
          turn = context.turn;
          decision_id = context.decision_id;
          state = state;
        })

  -- The append to the journal and the compare-and-set of the state.
  unfoldable pub write :
      (clock : ℕ → ℕ) → DecisionTicket → Entry → Stores → Result CommittedDecision × Stores
  write clock ticket entry stores =
      let context = ticket.context in
      let (position, journal) =
        append context.tenant_id context.generation (entry ∷ [])
          (lease_view ticket.writer_lease (clock 6) stores.leases) stores.journal in
      let (stored, states) =
        compare_and_set view context.tenant_id context.generation entry.generation
          entry.state_digest entry.state (lease_view ticket.writer_lease (clock 7) stores.leases)
          stores.states in
      let appended : Stores = record stores { journal = journal } in
      let written : Stores = record appended { states = states } in
      elim position [
        | raise e ↦ (raise e, appended)
        | ok p ↦
            if stored
            then (
              ok (record {
                generation = entry.generation;
                state_digest = entry.state_digest;
                state = entry.state;
                journal_position = p;
              }),
              written,
            )
            else (raise state_commit_conflict, written)
      ]

  abbrev pub write_prepared :
      (clock : ℕ → ℕ) → DecisionTicket → Result Entry → Stores → Result CommittedDecision × Stores
  write_prepared clock ticket (raise e) stores = (raise e, stores)
  write_prepared clock ticket (ok entry) stores = write clock ticket entry stores

  -- The `try` block of `commit`, behind the condition on the leases.
  abbrev pub commit_current :
      (clock : ℕ → ℕ) → DecisionTicket → Result Bool → Stores → Result CommittedDecision × Stores
  commit_current clock ticket (raise e) stores = (raise e, stores)
  commit_current clock ticket (ok false) stores = (raise stale_decision_context, stores)
  commit_current clock ticket (ok true) stores =
      write_prepared clock ticket (prepare ticket stores) stores

  -- `DecisionArbiter.commit`; `finally` closes the ticket.
  unfoldable pub commit :
      (clock : ℕ → ℕ)
      → DeadlineBudget
      → DecisionTicket
      → Stores
      → Result CommittedDecision × DecisionTicket × Stores
  commit clock budget ticket stores =
      if ticket.closed
      then (raise stale_decision_context, ticket, stores)
      else let (current, leases) = leases_current clock budget ticket stores.leases in
        let (outcome, stores') =
          commit_current clock ticket current (record stores { leases = leases }) in
        let (done, ticket', stores'') = close ticket stores' in (done >> outcome, ticket', stores'')
