-- ===== src/Application/Arbiter/Acquire.antt =====
-- application/decision.py: `DecisionArbiter.acquire`, which recovers the tenant, takes both leases,
-- and confirms the revision and its snapshot under them.
use arena_hero_agent.Prelude.{ℕ, Bool, false, ◌&&◌, not, Option, none, some, str_eq, if◌then◌else◌}
use arena_hero_agent.Prelude.Exceptions.{
  Exception, Result, ok, raise, value_error, decision_lease_unavailable, stale_decision_context,
  ◌>>=◌, ◌>>◌, raise_if,
}
use arena_hero_agent.Domain.ValueObjects.{DecisionId, Generation, DeadlineBudget}
use arena_hero_agent.Domain.TenantState.{
  TurnInput, TenantState, eq_tenant, require_owner, observe_turn,
}
use arena_hero_agent.Runtime.Leases.{release, acquire_writer, acquire_decision}
use arena_hero_agent.Runtime.StateStore.{
  States, LeaseView, lease_view, eq_generation, load, restore,
}
use arena_hero_agent.Application.Recovery.{
  Digests, RecoveredTenant, recover, same_revision, reject_duplicate,
}
use arena_hero_agent.Application.Arbiter.{DecisionContext, DecisionTicket, Stores, view, close}

module _ (digests : Digests) where
  -- `DecisionContext(...)`, with the checks of `__post_init__`
  unfoldable pub decision_context : DecisionContext → Result DecisionContext
  decision_context context = do
    require_owner context.state context.tenant_id
    raise_if (not (str_eq (digests.tenant_state context.state) context.state_digest)) value_error
    observe_turn digests.economy_input context.state context.turn context.tenant_id
    ok context

  -- `_ensure_snapshot`
  unfoldable pub ensure_snapshot :
      RecoveredTenant → LeaseView → States TenantState → Bool × States TenantState
  ensure_snapshot recovered lease states =
      let tenant = recovered.state.tenant_id in
      let restored =
        restore (view digests) tenant recovered.generation recovered.state_digest recovered.state
          lease states in
      elim (load tenant states) [
        | none ↦ restored
        | some stored ↦
            if eq_generation stored.generation recovered.generation
            then (
              str_eq stored.state_digest recovered.state_digest
                  && eq_tenant stored.state recovered.state,
              states,
            )
            else restored
      ]

  module _ (initial : TenantState) (generation : Generation) (turn : TurnInput)
      (decision : DecisionId) (clock : ℕ → ℕ) (budget : DeadlineBudget) where
    -- The steps before the leases, which change nothing.
    unfoldable pub admit : Stores → Result RecoveredTenant
    admit stores = do
      recovered ← recover digests initial generation stores.journal stores.states
      reject_duplicate recovered decision
      observe_turn digests.economy_input recovered.state turn initial.tenant_id
      ok recovered

    -- The second recovery, under the leases.
    unfoldable pub reconfirm : RecoveredTenant → Stores → Result RecoveredTenant
    reconfirm recovered stores = do
      current ← recover digests initial generation stores.journal stores.states
      raise_if (not (same_revision recovered current)) stale_decision_context
      reject_duplicate current decision
      ok current

    -- `except BaseException: await ticket.close(); raise`
    abbrev pub give_up : Exception → DecisionTicket → Stores → Result DecisionTicket × Stores
    give_up e ticket stores =
        let (done, _, stores') = close ticket stores in (done >> raise e, stores')

    -- The `try` block, with the snapshot written if the revision is confirmed.
    unfoldable pub confirm :
        RecoveredTenant → DecisionTicket → Stores → Result DecisionTicket × Stores
    confirm recovered ticket stores = elim (reconfirm recovered stores) [
      | raise e ↦ give_up e ticket stores
      | ok current ↦
          let (kept, states) =
            ensure_snapshot current (lease_view ticket.writer_lease (clock 2) stores.leases)
              stores.states in
          let stores' : Stores = record stores { states = states } in
          if kept then (ok ticket, stores') else give_up stale_decision_context ticket stores'
    ]

    -- With both leases held.
    unfoldable pub with_leases :
        RecoveredTenant
        → (writer_lease decision_lease : ℕ) → Stores
        → Result DecisionTicket × Stores
    with_leases recovered writer_lease decision_lease stores =
        elim (decision_context (record {
          tenant_id = initial.tenant_id;
          generation = recovered.generation;
          state_digest = recovered.state_digest;
          state = recovered.state;
          turn = turn;
          decision_id = decision;
        })) [
          | raise e ↦ (raise e, stores)
          | ok context ↦
              confirm recovered
                (record {
                  context = context;
                  decision_lease = decision_lease;
                  writer_lease = writer_lease;
                  initial_state = initial;
                  initial_generation = generation;
                  closed = false;
                })
                stores
        ]

    -- With the writer lease held, and the outcome of acquiring the decision lease.
    unfoldable pub with_writer :
        RecoveredTenant
        → (writer_lease : ℕ) → Result (Option ℕ)
        → Stores
        → Result DecisionTicket × Stores
    with_writer recovered writer_lease (raise e) stores = (raise e, stores)
    with_writer recovered writer_lease (ok none) stores =
        let (done, leases) = release writer_lease stores.leases in
        (done >> raise decision_lease_unavailable, record stores { leases = leases })
    with_writer recovered writer_lease (ok (some decision_lease)) stores =
        with_leases recovered writer_lease decision_lease stores

    -- With the outcome of acquiring the writer lease.
    unfoldable pub with_recovered :
        RecoveredTenant → Result (Option ℕ) → Stores → Result DecisionTicket × Stores
    with_recovered recovered (raise e) stores = (raise e, stores)
    with_recovered recovered (ok none) stores = (raise decision_lease_unavailable, stores)
    with_recovered recovered (ok (some writer_lease)) stores =
        let (outcome, leases) =
          acquire_decision initial.tenant_id recovered.generation decision budget (clock 1)
            stores.leases in
        with_writer recovered writer_lease outcome (record stores { leases = leases })

    -- With the outcome of the steps before the leases.
    unfoldable pub with_admitted : Result RecoveredTenant → Stores → Result DecisionTicket × Stores
    with_admitted (raise e) stores = (raise e, stores)
    with_admitted (ok recovered) stores =
        let (outcome, leases) =
          acquire_writer initial.tenant_id recovered.generation budget (clock 0) stores.leases in
        with_recovered recovered outcome (record stores { leases = leases })

    -- `DecisionArbiter.acquire`
    unfoldable pub acquire_ticket : Stores → Result DecisionTicket × Stores
    acquire_ticket stores = with_admitted (admit stores) stores
