-- ===== src/Application/Arbiter/Recommit.antt =====
-- application/decision.py: a commit, and the recovery after it.
use mathlib.Core.Path.{subst}
use arena_hero_agent.Prelude.{
  ℕ, ◌≡◌, refl, sym, ap, ◌∙◌, String, some, List, [], ◌∷◌, ◌++◌, eq_iff, arith,
}
use arena_hero_agent.Prelude.Dict.{Dict, insert, lookup-insert}
use arena_hero_agent.Prelude.Exceptions.{ok, ok-injective}
use arena_hero_agent.Domain.ValueObjects.{
  TenantId, DecisionId, Generation, next_generation, DeadlineBudget,
}
use arena_hero_agent.Domain.TenantState.{TenantState, require_owner, eq_tenant_iff}
use arena_hero_agent.Domain.TenantState.Reducers.{IsCoherent, reduce_turn-Reduces}
use arena_hero_agent.Runtime.StateStore.{Snapshot, States, load}
use arena_hero_agent.Runtime.Journal.{entries_of, read_from}
use arena_hero_agent.Application.Recovery.{
  Digests, Entry, RecoveredTenant, replay_entries, check_stored, recover,
}
use arena_hero_agent.Application.Recovery.Replay.{
  recover_parts, replay_step, replay_other, recover-Replays,
}
use arena_hero_agent.Application.Arbiter.{
  DecisionContext, CommittedDecision, DecisionTicket, Stores, commit,
}
use arena_hero_agent.Application.Arbiter.Commit.{commit_lem}
use arena_hero_agent.Application.Arbiter.Prepare.{entry_of, Prepared}

entries_of-insert :
    (tenant : TenantId) (entries : List Entry) (journal : Dict (List Entry))
    → entries_of tenant (insert tenant entries journal) ≡ entries
unfolding entries_of
entries_of-insert tenant entries journal =
    ground (arith, lookup-insert tenant tenant entries journal, eq_iff tenant tenant)

load-insert :
    (tenant : TenantId) (snapshot : Snapshot TenantState) (states : States TenantState)
    → load tenant (insert tenant snapshot states) ≡ some snapshot
unfolding load
load-insert tenant snapshot states =
    ground (arith, lookup-insert tenant tenant snapshot states, eq_iff tenant tenant)

module _ (digests : Digests) where
  -- Replaying one entry more is replaying it from the revision that the others give.
  replay_entries-append_one :
      (tenant : TenantId) (generation : Generation) (state : TenantState) (digest : String)
      (seen : List DecisionId) (entries : List Entry) (entry : Entry) {r : RecoveredTenant}
      → replay_entries digests tenant generation state digest seen entries ≡ ok r
      → replay_entries digests tenant generation state digest seen (entries ++ entry ∷ [])
        ≡ replay_entries digests tenant r.generation r.state r.state_digest r.committed_decision_ids
            (entry ∷ [])
  unfolding replay_entries
  replay_entries-append_one tenant generation state digest seen [] entry e =
      subst
        (λ r.
          replay_entries digests tenant generation state digest seen (entry ∷ [])
          ≡ replay_entries digests tenant r.generation r.state r.state_digest
              r.committed_decision_ids (entry ∷ []))
        (ok-injective e) refl
  replay_entries-append_one tenant generation state digest seen (x ∷ entries) entry e =
      replay_other digests tenant generation state digest seen x entries (entries ++ entry ∷ []) e
      ∙ replay_entries-append_one tenant x.generation x.state (digests.tenant_state x.state)
          (x.decision_id ∷ seen) entries entry
          (replay_step digests tenant generation state digest seen x entries e).1

  module _ (context : DecisionContext) (r : RecoveredTenant) (state : TenantState)
      (p : Prepared digests context r (entry_of digests context state)) where
    abbrev next_revision : RecoveredTenant
    next_revision = record {
      generation = next_generation context.generation;
      state_digest = digests.tenant_state state;
      state = state;
      committed_decision_ids = context.decision_id ∷ r.committed_decision_ids;
    }

    replay_committed :
        replay_entries digests context.tenant_id r.generation r.state r.state_digest
          r.committed_decision_ids
          (entry_of digests context state ∷ [])
        ≡ ok next_revision
    unfolding replay_entries
    replay_committed = ground (
      arith,
      p.generation,
      p.digest,
      p.state,
      p.fresh,
      p.reduced,
      eq_iff context.tenant_id context.tenant_id,
      eq_iff context.state_digest r.state_digest,
      eq_iff (digests.tenant_state state) (digests.tenant_state state),
      eq_tenant_iff state state,
    )

    check_committed :
        context.tenant_id ≡ state.tenant_id
        → check_stored digests context.tenant_id next_revision (
            some (record {
              generation = next_generation context.generation;
              state_digest = digests.tenant_state state;
              state = state;
            }))
          ≡ ok tt
    unfolding check_stored require_owner
    check_committed h = ground (
      arith,
      eq_iff context.tenant_id state.tenant_id,
      eq_iff (digests.tenant_state state) (digests.tenant_state state),
      eq_tenant_iff state state,
    )

  -- The tenant of a context is that of the recovered state.
  Prepared-tenant :
      (context : DecisionContext) (r : RecoveredTenant) (state : TenantState)
      → IsCoherent r.state
      → Prepared digests context r (entry_of digests context state)
      → (context.tenant_id ≡ r.state.tenant_id) × (context.tenant_id ≡ state.tenant_id)
  Prepared-tenant context r state c p =
      let (owner, _, _, reduces) =
        reduce_turn-Reduces digests.economy_input context.state context.turn context.decision_id
          context.tenant_id (subst IsCoherent p.state c) p.reduced in
      (owner ∙ ap (λ (s : TenantState). s.tenant_id) (sym p.state), owner ∙ sym reduces.tenant)

  module _ (initial : TenantState) (generation : Generation) (journal : Dict (List Entry))
      (states : States TenantState) (entries : List Entry) (r : RecoveredTenant)
      (snapshot : Snapshot TenantState) where
    -- The parts of a recovery, for a name of the tenant.
    abbrev Recovers : TenantId → Type 0
    Recovers tenant =
        (entries_of tenant journal ≡ entries)
        → load tenant states ≡ some snapshot
        → replay_entries digests tenant generation initial (digests.tenant_state initial) [] entries
          ≡ ok r
        → check_stored digests tenant r (some snapshot) ≡ ok tt
        → recover digests initial generation journal states ≡ ok r

    recovers : Recovers initial.tenant_id
    unfolding recover read_from
    recovers e l p q = rw (e, l, p, q)

  -- After a commit that returns, a recovery from the same initial state returns exactly the committed
  -- revision: the next generation, the committed state and its digest, and the decision added to the
  -- committed ones. The initial state is coherent.
  pub recover-commit :
      (clock : ℕ → ℕ) (budget : DeadlineBudget) (ticket : DecisionTicket) (stores : Stores)
      → IsCoherent ticket.initial_state
      → {c : CommittedDecision} → (commit digests clock budget ticket stores).0 ≡ ok c
      → let after = (commit digests clock budget ticket stores).2 in
        (r : RecoveredTenant) × (recover digests ticket.initial_state ticket.initial_generation
            stores.journal stores.states
          ≡ ok r)
        × (recover digests ticket.initial_state ticket.initial_generation after.journal after.states
            ≡ ok (record {
              generation = c.generation;
              state_digest = c.state_digest;
              state = c.state;
              committed_decision_ids = ticket.context.decision_id ∷ r.committed_decision_ids;
            }))
  recover-commit clock budget ticket stores coherent {c} e =
      let context = ticket.context in
      let (r, recovered, commits) = commit_lem digests clock ticket budget stores e in
      let (replays, _) =
        recover-Replays digests ticket.initial_state ticket.initial_generation stores.journal
          stores.states coherent recovered in
      let (own, kept) = Prepared-tenant context r c.state replays.coherent commits.prepared in
      let tenant = context.tenant_id in
      let same = own ∙ replays.owner in
      let entries = entries_of tenant stores.journal in
      let after = (commit digests clock budget ticket stores).2 in
      let (replayed, _) =
        recover_parts digests ticket.initial_state ticket.initial_generation stores.journal
          stores.states recovered in
      let next = next_revision context r c.state commits.prepared in
      let written : Snapshot TenantState = record {
        generation = c.generation;
        state_digest = c.state_digest;
        state = c.state;
      } in
      let snapshot : Snapshot TenantState = record {
        generation = next_generation context.generation;
        state_digest = digests.tenant_state c.state;
        state = c.state;
      } in
      let all = entries ++ entry_of digests context c.state ∷ [] in
      let before =
        subst
          (λ tenant.
            replay_entries digests tenant ticket.initial_generation ticket.initial_state
              (digests.tenant_state ticket.initial_state) [] (entries_of tenant stores.journal)
            ≡ ok r)
          (sym same) replayed in
      let recovers_by =
        subst
          (Recovers ticket.initial_state ticket.initial_generation after.journal after.states all
            next snapshot)
          (sym same)
          (recovers ticket.initial_state ticket.initial_generation after.journal after.states all
            next snapshot) in
      (
        r,
        recovered,
        recovers_by
              (ap (entries_of tenant) commits.journaled
                ∙ entries_of-insert tenant all stores.journal)
              (ap (load tenant) commits.stored
                ∙ load-insert tenant written stores.states
                ∙ cc (commits.generation, commits.digest))
              (replay_entries-append_one tenant ticket.initial_generation ticket.initial_state
                  (digests.tenant_state ticket.initial_state) [] entries
                  (entry_of digests context c.state) before
                ∙ replay_committed context r c.state commits.prepared)
              (check_committed context r c.state commits.prepared kept)
            ∙ cc (commits.generation, commits.digest),
      )
