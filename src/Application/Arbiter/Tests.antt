-- ===== src/Application/Arbiter/Tests.antt =====
-- One decision of a tenant, acquired and committed over empty stores, and the theorems at it.
use arena_hero_agent.Prelude.{
  ℕ, ◌+◌, ◌≡◌, ◌≢◌, refl, true, false, none, some, [], ◌∷◌, arith, ◌==◌, if◌then◌else◌, ℕ_discrete,
}
use arena_hero_agent.Prelude.Exceptions.{ok, raise, decision_lease_unavailable}
use arena_hero_agent.Domain.ValueObjects.{DeadlineBudget, Generation}
use arena_hero_agent.Domain.Economy.Reducer.{advanced}
use arena_hero_agent.Domain.TenantState.{TenantState}
use arena_hero_agent.Domain.TenantState.Samples.{
  sample_digest, first_state, second_turn, first-IsCoherent,
}
use arena_hero_agent.Runtime.Leases.{Coordinator, no_handle, new_coordinator, writer, active}
use arena_hero_agent.Runtime.Leases.Invariant.{IsValid, new_coordinator-IsValid}
use arena_hero_agent.Runtime.Leases.Run.{
  Reach, here, next, acquiring_writer, acquiring_decision, Reach-IsValid,
}
use arena_hero_agent.Runtime.Leases.Lifecycle.{holder}
use arena_hero_agent.Application.Recovery.Replay.{Replays, Agrees, recover-Replays}
use arena_hero_agent.Application.Arbiter.Commit.{Commits, commit_lem}
use arena_hero_agent.Application.Arbiter.Recommit.{recover-commit}
use arena_hero_agent.Application.Arbiter.Leases.{IsIssued, commit_closes}
use arena_hero_agent.Application.Arbiter.Denied.{acquire_ticket_fails_closed}
use arena_hero_agent.Application.Recovery.{Digests, RecoveredTenant}
use arena_hero_agent.Application.Arbiter.{DecisionTicket, CommittedDecision, Stores}
use arena_hero_agent.Application.Arbiter.Acquire.{
  acquire_ticket, with_admitted, admit, confirm, decision_context, ensure_snapshot, reconfirm,
  with_leases, with_recovered, with_writer,
}
use arena_hero_agent.Application.Arbiter.{close, commit, leases_current, prepare, write}
use arena_hero_agent.Application.Recovery.{recover, check_stored, replay_entries, reject_duplicate}
use arena_hero_agent.Domain.TenantState.{
  observe_turn, observe, eq_economy, eq_tenant, record_decision, reduce_turn, require_owner,
  tenant_state,
}
use arena_hero_agent.Domain.Economy.State.{advance, economy_state, economy_turn_input}
use arena_hero_agent.Domain.Economy.{
  core_resource_capacity, signed_safe_int, base_prices, eq_prices, prices_for,
}
use arena_hero_agent.Domain.Rules.{nonnegative_safe_int}
use arena_hero_agent.Domain.World.Equality.{eq_world}
use arena_hero_agent.Runtime.Journal.{read_from, entries_of, append, append_events, journal_entry}
use arena_hero_agent.Runtime.StateStore.{
  load, restore, restore_admitted, restore_locked, compare_and_set, cas_admitted, cas_locked,
}
use arena_hero_agent.Runtime.Leases.{
  acquire, acquire_decision, acquire_writer, disposition, issue, release, renew,
}
use arena_hero_agent.Prelude.Dict.{insert, lookup, mem_text}
use arena_hero_agent.Prelude.Int.{◌-ℤ◌}

abbrev digests : Digests
digests = record {
  economy_input = sample_digest;
  tenant_state = λ s. if s.decision_count == 0 then "s0" else "s1";
}

abbrev start : Coordinator
start = record {
  lease_duration_ns = 10;
  slots = λ k t. none;
  next_handle = 0;
  handles = λ p. no_handle;
}

abbrev empty : Stores
empty = record { journal = []; states = []; leases = start }

abbrev budget : DeadlineBudget
budget = record { nanoseconds = 5 }

abbrev zero_generation : Generation
zero_generation = record { value = 0 }

abbrev clock : ℕ → ℕ
clock k = 100 + k

abbrev ticket : DecisionTicket
ticket = record {
  context = record {
    tenant_id = "a";
    generation = zero_generation;
    state_digest = "s0";
    state = first_state;
    turn = second_turn;
    decision_id = "d1";
  };
  decision_lease = 1;
  writer_lease = 0;
  initial_state = first_state;
  initial_generation = zero_generation;
  closed = false;
}

abbrev held : Stores
held = (acquire_ticket digests first_state zero_generation second_turn "d1" clock budget empty).1

acquired :
    (acquire_ticket digests first_state zero_generation second_turn "d1" clock budget empty).0
    ≡ ok ticket
unfolding acquire_ticket with_admitted admit confirm decision_context ensure_snapshot reconfirm
    with_leases with_recovered with_writer close recover check_stored replay_entries
    reject_duplicate observe_turn observe eq_economy eq_tenant record_decision require_owner
    tenant_state advance economy_state economy_turn_input core_resource_capacity signed_safe_int
    base_prices eq_prices prices_for nonnegative_safe_int eq_world read_from entries_of load restore
    restore_admitted restore_locked acquire acquire_decision acquire_writer disposition issue
    release insert lookup mem_text ◌-ℤ◌ ℕ_discrete
acquired = refl

abbrev committed_state : TenantState
committed_state = record first_state {
  world = second_turn.projection;
  economy = advanced sample_digest first_state.economy second_turn.economy;
  decision_count = 1;
  last_decision_id = some "d1";
}

abbrev committed : CommittedDecision
committed = record {
  generation = record { value = 1 };
  state_digest = "s1";
  state = committed_state;
  journal_position = 0;
}

committed_lem : (commit digests clock budget ticket held).0 ≡ ok committed
unfolding acquire_ticket with_admitted admit confirm decision_context ensure_snapshot reconfirm
    with_leases with_recovered with_writer close commit leases_current prepare write recover
    check_stored replay_entries reject_duplicate observe_turn observe eq_economy eq_tenant
    record_decision reduce_turn require_owner tenant_state advance economy_state economy_turn_input
    core_resource_capacity signed_safe_int base_prices eq_prices prices_for nonnegative_safe_int
    eq_world read_from entries_of append append_events journal_entry load restore restore_admitted
    restore_locked compare_and_set cas_admitted cas_locked acquire acquire_decision acquire_writer
    disposition issue release renew insert lookup mem_text ◌-ℤ◌ ℕ_discrete
committed_lem = refl

start-IsValid : IsValid start
unfolding new_coordinator
start-IsValid = new_coordinator-IsValid 10 start refl

held-Reach : Reach start held.leases
unfolding acquire_ticket with_admitted admit confirm decision_context ensure_snapshot reconfirm
    with_leases with_recovered with_writer close recover check_stored replay_entries
    reject_duplicate observe_turn observe eq_economy eq_tenant record_decision require_owner
    tenant_state advance economy_state economy_turn_input core_resource_capacity signed_safe_int
    base_prices eq_prices prices_for nonnegative_safe_int eq_world read_from entries_of load restore
    restore_admitted restore_locked acquire acquire_decision acquire_writer disposition issue
    release insert lookup mem_text ◌-ℤ◌ ℕ_discrete
held-Reach =
    next (next here (acquiring_writer "a" zero_generation budget 100))
      (acquiring_decision "a" zero_generation "d1" budget 101)

held-IsIssued : IsIssued ticket held.leases
unfolding acquire_ticket with_admitted admit confirm decision_context ensure_snapshot reconfirm
    with_leases with_recovered with_writer close recover check_stored replay_entries
    reject_duplicate observe_turn observe eq_economy eq_tenant record_decision require_owner
    tenant_state advance economy_state economy_turn_input core_resource_capacity signed_safe_int
    base_prices eq_prices prices_for nonnegative_safe_int eq_world read_from entries_of load restore
    restore_admitted restore_locked acquire acquire_decision acquire_writer disposition issue
    release insert lookup mem_text ◌-ℤ◌ ℕ_discrete
held-IsIssued = omega arith

commit_closes_example :
    let (outcome, ticket', stores') = commit digests clock budget ticket held in
    (ticket'.closed ≡ true)
    × (disposition 0 200 stores'.leases ≢ active)
    × (disposition 1 200 stores'.leases ≢ active)
commit_closes_example =
    commit_closes digests clock budget ticket held 200 (Reach-IsValid held-Reach start-IsValid)
      held-IsIssued refl here

commit_lem_example :
    (r : RecoveredTenant) × (recover digests first_state zero_generation held.journal held.states
      ≡ ok r)
    × Commits digests ticket.context r held (commit digests clock budget ticket held).2 committed
commit_lem_example = commit_lem digests clock ticket budget held committed_lem

recover-commit_example :
    (r : RecoveredTenant) × (recover digests first_state zero_generation held.journal held.states
      ≡ ok r)
    × (recover digests first_state zero_generation
          (commit digests clock budget ticket held).2.journal
          (commit digests clock budget ticket held).2.states
        ≡ ok (record {
          generation = record { value = 1 };
          state_digest = "s1";
          state = committed_state;
          committed_decision_ids = "d1" ∷ r.committed_decision_ids;
        }))
recover-commit_example =
    recover-commit digests clock budget ticket held first-IsCoherent committed_lem

-- The stores after the commit, and what is recovered of them.
abbrev after : Stores
after = (commit digests clock budget ticket held).2

abbrev first_revision : RecoveredTenant
first_revision = record {
  generation = record { value = 1 };
  state_digest = "s1";
  state = committed_state;
  committed_decision_ids = "d1" ∷ [];
}

recovered :
    recover digests first_state zero_generation after.journal after.states ≡ ok first_revision
unfolding acquire_ticket with_admitted admit confirm decision_context ensure_snapshot reconfirm
    with_leases with_recovered with_writer close commit leases_current prepare write recover
    check_stored replay_entries reject_duplicate observe_turn observe eq_economy eq_tenant
    record_decision reduce_turn require_owner tenant_state advance economy_state economy_turn_input
    core_resource_capacity signed_safe_int base_prices eq_prices prices_for nonnegative_safe_int
    eq_world read_from entries_of append append_events journal_entry load restore restore_admitted
    restore_locked compare_and_set cas_admitted cas_locked acquire acquire_decision acquire_writer
    disposition issue release renew insert lookup mem_text ◌-ℤ◌ ℕ_discrete
recovered = refl

recover-Replays_example :
    Replays digests "a" zero_generation first_state [] (entries_of "a" after.journal) first_revision
    × Agrees digests "a" first_revision (load "a" after.states)
recover-Replays_example =
    recover-Replays digests first_state zero_generation after.journal after.states first-IsCoherent
      recovered

-- Another decision of the tenant is under way, so the writer lease is granted and given back.
abbrev busy : Stores
busy = record empty { leases = (acquire_decision "a" zero_generation "d0" budget 95 start).1 }

writer_granted : (acquire_writer "a" zero_generation budget 100 busy.leases).0 ≡ ok (some 1)
unfolding acquire_writer acquire_decision acquire issue disposition
writer_granted = refl

busy-IsValid : IsValid busy.leases
busy-IsValid =
    Reach-IsValid (next here (acquiring_decision "a" zero_generation "d0" budget 95)) start-IsValid

denied :
    (acquire_ticket digests first_state zero_generation second_turn "d1" clock budget busy).0
    ≡ raise decision_lease_unavailable
unfolding acquire_ticket with_admitted admit confirm decision_context ensure_snapshot reconfirm
    with_leases with_recovered with_writer close recover check_stored replay_entries
    reject_duplicate observe_turn observe eq_economy eq_tenant record_decision require_owner
    tenant_state advance economy_state economy_turn_input core_resource_capacity signed_safe_int
    base_prices eq_prices prices_for nonnegative_safe_int eq_world read_from entries_of load restore
    restore_admitted restore_locked acquire acquire_decision acquire_writer disposition issue
    release insert lookup mem_text ◌-ℤ◌ ℕ_discrete
denied = refl

acquire_ticket_fails_closed_example :
    holder writer "a"
      (acquire_ticket digests first_state zero_generation second_turn "d1" clock budget
        busy).1.leases
    ≡ none
unfolding acquire_decision acquire issue disposition
acquire_ticket_fails_closed_example =
    acquire_ticket_fails_closed digests first_state zero_generation second_turn "d1" clock budget
      busy writer "a" first-IsCoherent busy-IsValid denied
