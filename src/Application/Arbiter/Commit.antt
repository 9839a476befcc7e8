-- ===== src/Application/Arbiter/Commit.antt =====
-- application/decision.py: what a commit that returns has checked and written.
use mathlib.Core.Path.{subst}
use arena_hero_agent.Prelude.{
  ℕ, ◌≡◌, refl, sym, ap, ◌∙◌, Bool, true, false, [], ◌∷◌, ◌++◌, inl, inr, arith, Bool-cases,
}
use arena_hero_agent.Prelude.Dict.{insert}
use arena_hero_agent.Prelude.Exceptions.{Result, ok, raise, Result-cases}
use arena_hero_agent.Domain.ValueObjects.{next_generation, DeadlineBudget}
use arena_hero_agent.Runtime.StateStore.{lease_view}
use arena_hero_agent.Runtime.Journal.{append, entries_of}
use arena_hero_agent.Application.Recovery.{Digests, Entry, RecoveredTenant, recover}
use arena_hero_agent.Application.Arbiter.{
  DecisionContext, CommittedDecision, DecisionTicket, Stores, close, leases_current, prepare, write,
  commit, write_prepared, commit_current,
}
use arena_hero_agent.Application.Arbiter.Prepare.{
  append_one, compare_and_set_written, entry_of, Prepared, prepare-Prepared,
}

-- What a commit that returns has done to journal and state store, from revision `r`.
pub record Commits (digests : Digests) (context : DecisionContext) (r : RecoveredTenant)
    (before after : Stores) (c : CommittedDecision) : Type 0 where
  pub prepared : Prepared digests context r (entry_of digests context c.state)
  pub generation : c.generation ≡ next_generation context.generation
  pub digest : c.state_digest ≡ digests.tenant_state c.state
  pub journaled :
      after.journal
      ≡ insert context.tenant_id
          (entries_of context.tenant_id before.journal ++ entry_of digests context c.state ∷ [])
          before.journal
  pub stored :
      after.states
      ≡ insert context.tenant_id
          (record { generation = c.generation; state_digest = c.state_digest; state = c.state })
          before.states

module _ (digests : Digests) (clock : ℕ → ℕ) (ticket : DecisionTicket) where
  write_lem :
      (entry : Entry) (stores : Stores) {c : CommittedDecision}
      → (write digests clock ticket entry stores).0 ≡ ok c
      → let after = (write digests clock ticket entry stores).1 in
        let tenant = ticket.context.tenant_id in
        (c.generation ≡ entry.generation)
        × (c.state_digest ≡ entry.state_digest)
        × (c.state ≡ entry.state)
        × (after.journal
            ≡ insert tenant (entries_of tenant stores.journal ++ entry ∷ []) stores.journal)
        × (after.states
            ≡ insert tenant
                (record {
                  generation = entry.generation;
                  state_digest = entry.state_digest;
                  state = entry.state;
                })
                stores.states)
  unfolding write
  write_lem entry stores e =
      let context = ticket.context in
      let lease = lease_view ticket.writer_lease (clock 6) stores.leases in
      let lease' = lease_view ticket.writer_lease (clock 7) stores.leases in
      elim (Result-cases
        (append context.tenant_id context.generation (entry ∷ []) lease stores.journal).0) [
          | inl (x, bad) ↦ ground arith
          | inr (p, good) ↦ ground (
            arith,
            append_one context.tenant_id context.generation entry lease stores.journal good,
            compare_and_set_written digests context.tenant_id context.generation entry.generation
                entry.state_digest entry.state lease' stores.states,
          )
        ]

  write_prepared_lem :
      (prepared : Result Entry) (stores : Stores) {c : CommittedDecision}
      → prepare digests ticket stores ≡ prepared
      → (write_prepared digests clock ticket prepared stores).0 ≡ ok c
      → (r : RecoveredTenant) × (recover digests ticket.initial_state ticket.initial_generation
            stores.journal stores.states
          ≡ ok r)
        × Commits digests ticket.context r stores
            (write_prepared digests clock ticket prepared stores).1
            c
  write_prepared_lem (raise x) stores p e = cc
  write_prepared_lem (ok entry) stores {c} p e =
      let (r, recovered, prepared) = prepare-Prepared digests ticket stores p in
      let (generation, digest, state, journaled, stored) = write_lem entry stores e in
      let context = ticket.context in
      let same = prepared.made ∙ ap (entry_of digests context) (sym state) in
      (
        r,
        recovered,
        record {
          prepared = subst (Prepared digests context r) same prepared;
          generation = generation ∙ ap (λ (e : Entry). e.generation) same;
          digest = digest ∙ ap (λ (e : Entry). e.state_digest) same;
          journaled =
              journaled
              ∙ ap
                  (λ e.
                    insert context.tenant_id (entries_of context.tenant_id stores.journal ++ e ∷ [])
                      stores.journal)
                  same;
          stored = rw (generation, digest, state) stored;
        },
      )

  commit_current_lem :
      (current : Result Bool) (stores : Stores) {c : CommittedDecision}
      → (commit_current digests clock ticket current stores).0 ≡ ok c
      → (r : RecoveredTenant) × (recover digests ticket.initial_state ticket.initial_generation
            stores.journal stores.states
          ≡ ok r)
        × Commits digests ticket.context r stores
            (commit_current digests clock ticket current stores).1
            c
  commit_current_lem (raise x) stores e = cc
  commit_current_lem (ok false) stores e = cc
  commit_current_lem (ok true) stores e =
      write_prepared_lem (prepare digests ticket stores) stores refl e

  -- A commit that returns has recovered the very revision that its ticket was made for, and a decision
  -- that the journal does not hold. It has reduced that revision by the ticket's turn and decision,
  -- appended one entry with the result to the tenant's journal, and put the result into the state
  -- store under the next generation.
  pub commit_lem :
      (budget : DeadlineBudget) (stores : Stores) {c : CommittedDecision}
      → (commit digests clock budget ticket stores).0 ≡ ok c
      → (r : RecoveredTenant) × (recover digests ticket.initial_state ticket.initial_generation
            stores.journal stores.states
          ≡ ok r)
        × Commits digests ticket.context r stores (commit digests clock budget ticket stores).2 c
  unfolding commit close
  commit_lem budget stores {c} e = elim (Bool-cases ticket.closed) [
    | inl closed ↦ ground arith
    | inr open_ticket ↦
        let renewed = leases_current clock budget ticket stores.leases in
        let (r, recovered, commits) =
          commit_current_lem renewed.0 (record stores { leases = renewed.1 }) {c = c}
            (ground arith) in
        (
          r,
          recovered,
          record {
            prepared = commits.prepared;
            generation = commits.generation;
            digest = commits.digest;
            journaled = ground (arith, commits.journaled);
            stored = ground (arith, commits.stored);
          },
        )
  ]
