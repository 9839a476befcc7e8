-- ===== src/Application/Recovery/Replay.antt =====
-- application/decision.py: what `_recover` returns.
use mathlib.Core.Path.{subst}
use arena_hero_agent.Prelude.{
  ◌+◌, ◌≡◌, refl, ◌∙◌, false, ◌&&◌, ◌||◌, String, Option, none, some, List, [], ◌∷◌, length, ltb,
  ltb→lt, ◌<◌, ◌⊎◌, eq_iff, inl, inr, arith, Bool-cases,
}
use arena_hero_agent.Prelude.Dict.{Dict, mem_text}
use arena_hero_agent.Prelude.Exceptions.{
  Result, ok, raise, ◌>>=◌, Result-cases, >>=-ok, ok-injective,
}
use arena_hero_agent.Prelude.Sort.{has_duplicate}
use arena_hero_agent.Domain.ValueObjects.{TenantId, DecisionId, Generation}
use arena_hero_agent.Domain.TenantState.{TenantState, require_owner, eq_tenant_iff, reduce_turn}
use arena_hero_agent.Domain.TenantState.Reducers.{IsCoherent, reduce_turn-Reduces}
use arena_hero_agent.Runtime.StateStore.{Snapshot, States, load}
use arena_hero_agent.Runtime.Journal.{read_from, decision_ids, entries_of}
use arena_hero_agent.Application.Recovery.{
  Digests, Entry, RecoveredTenant, as_recovery_error, is_value_error, replay_entries, check_stored,
  recover,
}

module _ (digests : Digests) where
  -- The pure reducer folded over the turns and decisions of a journal.
  abbrev pub reduce_all : TenantId → TenantState → List Entry → Result TenantState
  reduce_all tenant state [] = ok state
  reduce_all tenant state (entry ∷ entries) =
      reduce_turn digests.economy_input state entry.turn entry.decision_id tenant >>= λ reduced.
      reduce_all tenant reduced entries

  -- The entry that continues a revision with the reduced state of its turn and decision.
  pub record Continues (tenant : TenantId) (generation : Generation) (state : TenantState)
      (seen : List DecisionId) (entry : Entry) : Type 0 where
    pub reduced :
        reduce_turn digests.economy_input state entry.turn entry.decision_id tenant ≡ ok entry.state
    pub advanced : entry.generation.value ≡ generation.value + 1
    pub fresh : mem_text entry.decision_id seen ≡ false
    pub digested : digests.tenant_state entry.state ≡ entry.state_digest

  as_recovery_ok :
      (r : Result TenantState) {t : TenantState} → as_recovery_error r ≡ ok t → r ≡ ok t
  as_recovery_ok (ok a) e = e
  as_recovery_ok (raise x) e = elim (Bool-cases (is_value_error x)) [
    | inl caught ↦ ground arith
    | inr passed ↦ ground arith
  ]

  module _ (tenant : TenantId) (generation : Generation) (state : TenantState) (digest : String)
      (seen : List DecisionId) (entry : Entry) (entries : List Entry) where
    pub replay_step :
        {r : RecoveredTenant}
        → replay_entries digests tenant generation state digest seen (entry ∷ entries) ≡ ok r
        → Continues tenant generation state seen entry
          × (replay_entries digests tenant entry.generation entry.state
                (digests.tenant_state entry.state)
                (entry.decision_id ∷ seen)
                entries
              ≡ ok r)
    unfolding replay_entries
    replay_step e =
        elim (Result-cases
          (reduce_turn digests.economy_input state entry.turn entry.decision_id tenant)) [
            | inl (x, bad) ↦ ground arith
            | inr (t, f) ↦ ground (
              arith,
              eq_tenant_iff t entry.state,
              eq_iff (digests.tenant_state t) entry.state_digest,
            )
          ]

    -- The tests of an entry do not depend on what comes after it.
    pub replay_other :
        (others : List Entry) {r : RecoveredTenant}
        → replay_entries digests tenant generation state digest seen (entry ∷ entries) ≡ ok r
        → replay_entries digests tenant generation state digest seen (entry ∷ others)
          ≡ replay_entries digests tenant entry.generation entry.state
              (digests.tenant_state entry.state)
              (entry.decision_id ∷ seen)
              others
    unfolding replay_entries
    replay_other others e =
        elim (Result-cases
          (reduce_turn digests.economy_input state entry.turn entry.decision_id tenant)) [
            | inl (x, bad) ↦ ground arith
            | inr (t, f) ↦ ground (
              arith,
              eq_tenant_iff t entry.state,
              eq_iff (digests.tenant_state t) entry.state_digest,
            )
          ]

  -- What a replay of entries makes of a revision.
  pub record Replays (tenant : TenantId) (generation : Generation) (state : TenantState)
      (seen : List DecisionId) (entries : List Entry) (r : RecoveredTenant) : Type 0 where
    pub generation_counts : r.generation.value ≡ generation.value + length entries
    pub folded : reduce_all tenant state entries ≡ ok r.state
    pub decisions_count : r.state.decision_count ≡ state.decision_count + length entries
    pub coherent : IsCoherent r.state
    pub owner : r.state.tenant_id ≡ state.tenant_id
    pub digested : r.state_digest ≡ digests.tenant_state r.state
    pub committed :
        (d : DecisionId)
        → mem_text d r.committed_decision_ids
          ≡ (mem_text d (decision_ids entries) || mem_text d seen)
    pub distinct : has_duplicate (decision_ids entries) ≡ false
    pub apart : (d : DecisionId) → (mem_text d (decision_ids entries) && mem_text d seen) ≡ false

  replay-Replays :
      (tenant : TenantId) (generation : Generation) (state : TenantState) (seen : List DecisionId)
      (entries : List Entry)
      → IsCoherent state
      → {r : RecoveredTenant}
      → replay_entries digests tenant generation state (digests.tenant_state state) seen entries
        ≡ ok r
      → Replays tenant generation state seen entries r
  unfolding replay_entries mem_text has_duplicate
  replay-Replays tenant generation state seen [] c e =
      subst (Replays tenant generation state seen []) (ok-injective e) (record {
        generation_counts = omega arith;
        folded = refl;
        decisions_count = omega arith;
        coherent = c;
        owner = refl;
        digested = refl;
        committed = λ d. refl;
        distinct = refl;
        apart = λ d. refl;
      })
  replay-Replays tenant generation state seen (entry ∷ entries) c {r} e =
      let (continues, rest) =
        replay_step tenant generation state (digests.tenant_state state) seen entry entries e in
      let (own, _, coherent, reduces) =
        reduce_turn-Reduces digests.economy_input state entry.turn entry.decision_id tenant c
          continues.reduced in
      let replays =
        replay-Replays tenant entry.generation entry.state (entry.decision_id ∷ seen) entries
          coherent rest in
      record {
        generation_counts = omega (arith, replays.generation_counts, continues.advanced);
        folded = rw continues.reduced replays.folded;
        decisions_count = omega (arith, replays.decisions_count, reduces.count);
        coherent = replays.coherent;
        owner = replays.owner ∙ reduces.tenant;
        digested = replays.digested;
        committed = λ d. ground (arith, replays.committed d);
        distinct = ground (
          arith,
          replays.apart entry.decision_id,
          replays.distinct,
          eq_iff entry.decision_id entry.decision_id,
        );
        apart = λ d. ground (arith, replays.apart d, continues.fresh, eq_iff d entry.decision_id);
      }

  -- A snapshot is of the tenant, is not ahead of the replayed revision, and is that revision's state
  -- unless it is behind.
  abbrev pub Agrees : TenantId → RecoveredTenant → Option (Snapshot TenantState) → Type 0
  Agrees tenant r none = Unit
  Agrees tenant r (some stored) =
      (stored.state.tenant_id ≡ tenant)
      × (digests.tenant_state stored.state ≡ stored.state_digest)
      × ((stored.generation.value < r.generation.value)
          ⊎ ((stored.generation.value ≡ r.generation.value) × (stored.state ≡ r.state)))

  check_stored-Agrees :
      (tenant : TenantId) (r : RecoveredTenant) (stored : Option (Snapshot TenantState))
      {u : Unit {0}}
      → check_stored digests tenant r stored ≡ ok u
      → Agrees tenant r stored
  unfolding check_stored require_owner
  check_stored-Agrees tenant r none e = tt
  check_stored-Agrees tenant r (some stored) e =
      elim (Bool-cases (ltb stored.generation.value r.generation.value)) [
        | inl behind ↦ (
          ground (arith, eq_iff tenant stored.state.tenant_id),
          ground (arith, eq_iff (digests.tenant_state stored.state) stored.state_digest),
          inl (ltb→lt _ _ behind),
        )
        | inr level ↦ (
          ground (arith, eq_iff tenant stored.state.tenant_id),
          ground (arith, eq_iff (digests.tenant_state stored.state) stored.state_digest),
          inr (ground (arith, eq_tenant_iff stored.state r.state)),
        )
      ]

  -- The two parts of a recovery that returns.
  pub recover_parts :
      (initial : TenantState) (generation : Generation) (journal : Dict (List Entry))
      (states : States TenantState) {r : RecoveredTenant}
      → recover digests initial generation journal states ≡ ok r
      → (replay_entries digests initial.tenant_id generation initial
            (digests.tenant_state initial)
            []
            (entries_of initial.tenant_id journal)
          ≡ ok r)
        × (check_stored digests initial.tenant_id r (load initial.tenant_id states) ≡ ok tt)
  unfolding recover read_from
  recover_parts initial generation journal states e =
      let tenant = initial.tenant_id in
      let (s, replayed, rest) =
        >>=-ok
          (replay_entries digests tenant generation initial (digests.tenant_state initial) []
            (entries_of tenant journal))
          _ e in
      let (_, checked, same) = >>=-ok (check_stored digests tenant s (load tenant states)) _ rest in
      (
        replayed ∙ same,
        subst (λ r. check_stored digests tenant r (load tenant states) ≡ ok tt) (ok-injective same)
            checked,
      )

  -- A recovery that returns has folded the pure reducer over all turns and decisions of the tenant's
  -- journal, from a coherent initial state: the generation and the decision count have gone up by the
  -- number of entries, the state is coherent, of the same tenant and of that digest, the decision ids
  -- of the journal are distinct and are the committed ones, and the stored snapshot agrees.
  pub recover-Replays :
      (initial : TenantState) (generation : Generation) (journal : Dict (List Entry))
      (states : States TenantState)
      → IsCoherent initial
      → {r : RecoveredTenant} → recover digests initial generation journal states ≡ ok r
      → Replays initial.tenant_id generation initial [] (entries_of initial.tenant_id journal) r
        × Agrees initial.tenant_id r (load initial.tenant_id states)
  recover-Replays initial generation journal states c {r} e =
      let (replayed, checked) = recover_parts initial generation journal states e in
      (
        replay-Replays initial.tenant_id generation initial []
            (entries_of initial.tenant_id journal) c replayed,
        check_stored-Agrees initial.tenant_id r (load initial.tenant_id states) checked,
      )
