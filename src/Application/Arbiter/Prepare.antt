-- ===== src/Application/Arbiter/Prepare.antt =====
-- application/decision.py: what `prepare` has checked, and the entry that it makes.
use mathlib.Core.Path.{subst}
use arena_hero_agent.Prelude.{
  ℕ, ◌≡◌, refl, Bool, true, false, not, String, List, [], ◌∷◌, ◌++◌, eq_iff, inl, inr, arith,
  Bool-cases,
}
use arena_hero_agent.Prelude.Dict.{Dict, insert, mem_text}
use arena_hero_agent.Prelude.Exceptions.{
  Exception, Result, ok, raise, stale_decision_context, raise_if, >>=-ok,
}
use arena_hero_agent.Domain.ValueObjects.{TenantId, DecisionId, Generation, next_generation}
use arena_hero_agent.Domain.TenantState.{TenantState, eq_tenant_iff, reduce_turn}
use arena_hero_agent.Runtime.StateStore.{States, LeaseView, compare_and_set, cas_locked}
use arena_hero_agent.Runtime.Journal.{append, append_events, entries_of, journal_entry}
use arena_hero_agent.Application.Recovery.{
  Digests, Entry, RecoveredTenant, recover, same_revision, reject_duplicate,
}
use arena_hero_agent.Application.Arbiter.{
  DecisionContext, DecisionTicket, Stores, view, prepare, revision_of, as_duplicate_decision,
  is_duplicate_commit,
}

pub append_one :
    (tenant : TenantId) (generation : Generation) (entry : Entry) (lease : LeaseView)
    (journal : Dict (List Entry)) {p : ℕ}
    → (append tenant generation (entry ∷ []) lease journal).0 ≡ ok p
    → (append tenant generation (entry ∷ []) lease journal).1
      ≡ insert tenant (entries_of tenant journal ++ entry ∷ []) journal
unfolding append append_events
append_one tenant generation entry lease journal e = ground arith

pub compare_and_set_written :
    (digests : Digests) (tenant : TenantId) (expected next : Generation) (digest : String)
    (state : TenantState) (lease : LeaseView) (states : States TenantState)
    → (compare_and_set (view digests) tenant expected next digest state lease states).0 ≡ true
    → (compare_and_set (view digests) tenant expected next digest state lease states).1
      ≡ insert tenant (record { generation = next; state_digest = digest; state = state }) states
unfolding compare_and_set cas_locked
compare_and_set_written digests tenant expected next digest state lease states e = ground arith

reject_duplicate_lem :
    (r : RecoveredTenant) (decision : DecisionId) {u : Unit {0}}
    → reject_duplicate r decision ≡ ok u
    → mem_text decision r.committed_decision_ids ≡ false
unfolding reject_duplicate
reject_duplicate_lem r decision e = ground arith

journal_entry_same :
    (digests : Digests) (entry : Entry) {made : Entry}
    → journal_entry (view digests) (λ s. s.last_decision_id) entry ≡ ok made
    → entry ≡ made
unfolding journal_entry
journal_entry_same digests entry e = ground arith

as_duplicate_ok :
    (r : Result TenantState) {t : TenantState} → as_duplicate_decision r ≡ ok t → r ≡ ok t
as_duplicate_ok (ok a) e = e
as_duplicate_ok (raise x) e = elim (Bool-cases (is_duplicate_commit x)) [
  | inl duplicate ↦ ground arith
  | inr other ↦ ground arith
]

-- The entry of a context's decision with its reduced state.
abbrev pub entry_of : Digests → DecisionContext → TenantState → Entry
entry_of digests context state = record {
  tenant_id = context.tenant_id;
  previous_generation = context.generation;
  generation = next_generation context.generation;
  previous_state_digest = context.state_digest;
  state_digest = digests.tenant_state state;
  turn = context.turn;
  decision_id = context.decision_id;
  state = state;
}

-- What `prepare` has checked, and the entry that it makes.
pub record Prepared (digests : Digests) (context : DecisionContext) (r : RecoveredTenant)
    (entry : Entry) : Type 0 where
  pub generation : r.generation ≡ context.generation
  pub digest : r.state_digest ≡ context.state_digest
  pub state : r.state ≡ context.state
  pub fresh : mem_text context.decision_id r.committed_decision_ids ≡ false
  pub reduced :
      reduce_turn digests.economy_input context.state context.turn context.decision_id
        context.tenant_id
      ≡ ok entry.state
  pub made : entry ≡ entry_of digests context entry.state

not_raised : (b : Bool) (x : Exception) {u : Unit {0}} → raise_if (not b) x ≡ ok u → b ≡ true
not_raised b x e = ground arith

module _ (digests : Digests) (ticket : DecisionTicket) (stores : Stores) where
  same_revision_lem :
      (r : RecoveredTenant) (context : DecisionContext)
      → same_revision r (revision_of context) ≡ true
      → (r.generation ≡ context.generation)
        × (r.state_digest ≡ context.state_digest)
        × (r.state ≡ context.state)
  same_revision_lem r context e =
      ground
        (arith, eq_iff r.state_digest context.state_digest, eq_tenant_iff r.state context.state)

  pub prepare-Prepared :
      {entry : Entry}
      → prepare digests ticket stores ≡ ok entry
      → (r : RecoveredTenant) × (recover digests ticket.initial_state ticket.initial_generation
            stores.journal stores.states
          ≡ ok r)
        × Prepared digests ticket.context r entry
  unfolding prepare
  prepare-Prepared e =
      let context = ticket.context in
      let (r, recovered, rest) =
        >>=-ok
          (recover digests ticket.initial_state ticket.initial_generation stores.journal
            stores.states)
          _ e in
      let (_, same, rest') =
        >>=-ok (raise_if (not (same_revision r (revision_of context))) stale_decision_context) _
          rest in
      let (_, fresh, rest'') = >>=-ok (reject_duplicate r context.decision_id) _ rest' in
      let (state, reduced, made) =
        >>=-ok
          (as_duplicate_decision (
            reduce_turn digests.economy_input context.state context.turn context.decision_id
              context.tenant_id))
          _ rest'' in
      let (generation, digest, held) =
        same_revision_lem r context
          (not_raised (same_revision r (revision_of context)) stale_decision_context same) in
      (
        r,
        recovered,
        subst (Prepared digests context r)
            (journal_entry_same digests (entry_of digests context state) made)
            (record {
              generation = generation;
              digest = digest;
              state = held;
              fresh = reject_duplicate_lem r context.decision_id fresh;
              reduced = as_duplicate_ok _ reduced;
              made = refl;
            }),
      )
