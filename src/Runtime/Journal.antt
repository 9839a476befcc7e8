-- ===== src/Runtime/Journal.antt =====
-- MemoryDecisionJournal of adapters/runtime/state.py and the entries of application/decision.py
-- that it keeps: replay evidence by tenant, appended under a writer lease. Turns and states are
-- opaque to the journal.
pub mod Append
pub mod History
mod Tests
use arena_hero_agent.Prelude.{
  ℕ, ◌-◌, Bool, true, false, ◌||◌, not, Option, none, some, List, [], ◌∷◌, ◌++◌, map, length, drop,
  if◌then◌else◌, String, str_eq,
}
use arena_hero_agent.Prelude.Int.{ℤ, pos, negsuc}
use arena_hero_agent.Prelude.Dict.{Dict, lookup, insert, mem_text}
use arena_hero_agent.Prelude.Exceptions.{
  Exception, Result, ok, raise, value_error, ◌>>=◌, ◌>>◌, raise_if,
}
use arena_hero_agent.Domain.ValueObjects.{TenantId, DecisionId, Generation, next_generation}
use arena_hero_agent.Runtime.StateStore.{StateView, LeaseView, is_active, eq_generation}

pub record DecisionJournalEntry (Turn State : Type 0) : Type 0 where
  pub tenant_id : TenantId
  pub previous_generation : Generation
  pub generation : Generation
  pub previous_state_digest : String
  pub state_digest : String
  pub turn : Turn
  pub decision_id : DecisionId
  pub state : State

abbrev pub lease_is_current : TenantId → Generation → LeaseView → Bool
lease_is_current tenant_id generation lease = not (
    not (str_eq lease.tenant_id tenant_id)
    || not (eq_generation lease.generation generation)
    || not (is_active lease.disposition))

module _ {Turn State : Type 0} where
  -- `DecisionJournalEntry.__post_init__`, given the last decision id of a state
  unfoldable pub journal_entry :
      StateView State
      → (State → Option DecisionId)
      → DecisionJournalEntry Turn State
      → Result (DecisionJournalEntry Turn State)
  journal_entry view last_decision_id entry = do
    raise_if (not (eq_generation entry.generation (next_generation entry.previous_generation)))
        value_error
    raise_if (not (str_eq (view.owner entry.state) entry.tenant_id)) value_error
    raise_if (not (str_eq (view.digest entry.state) entry.state_digest)) value_error
    raise_if
        (elim (last_decision_id entry.state) [
          | none ↦ true
          | some d ↦ not (str_eq d entry.decision_id)
        ])
        value_error
    ok entry

  abbrev pub decision_ids : List (DecisionJournalEntry Turn State) → List DecisionId
  decision_ids entries = map (λ e. e.decision_id) entries

  -- `entries[-1].generation if entries else generation`
  abbrev pub last_generation : Generation → List (DecisionJournalEntry Turn State) → Generation
  last_generation g [] = g
  last_generation g (e ∷ entries) = last_generation e.generation entries

  -- The loop over the events, with its three variables: it appends to the list as it goes.
  unfoldable pub append_events :
      TenantId
      → (current : Generation) → (seen : List DecisionId) → List (DecisionJournalEntry Turn State)
      → List (DecisionJournalEntry Turn State)
      → Result (Unit {0}) × List (DecisionJournalEntry Turn State)
  unfolding mem_text
  append_events tenant_id current seen [] entries = (ok tt, entries)
  append_events tenant_id current seen (event ∷ events) entries =
      if not (str_eq event.tenant_id tenant_id)
      then (raise value_error, entries)
      else if not (eq_generation event.previous_generation current)
      then (raise value_error, entries)
      else if mem_text event.decision_id seen
      then (raise value_error, entries)
      else append_events tenant_id event.generation (event.decision_id ∷ seen) events
          (entries ++ event ∷ [])

  abbrev pub is_empty : List (DecisionJournalEntry Turn State) → Bool
  is_empty [] = true
  is_empty (_ ∷ _) = false

  -- `self._entries.get(tenant_id, ())`
  unfoldable pub entries_of :
      TenantId
      → Dict (List (DecisionJournalEntry Turn State))
      → List (DecisionJournalEntry Turn State)
  unfolding lookup
  entries_of tenant_id journal = elim (lookup tenant_id journal) [
    | none ↦ []
    | some entries ↦ entries
  ]

  -- The list is shared with the dict, so what the loop has appended before it raises stays there.
  unfoldable pub append :
      TenantId
      → Generation
      → List (DecisionJournalEntry Turn State)
      → LeaseView
      → Dict (List (DecisionJournalEntry Turn State))
      → Result ℕ × Dict (List (DecisionJournalEntry Turn State))
  unfolding append_events entries_of insert
  append tenant_id generation events lease journal =
      if is_empty events
      then (raise value_error, journal)
      else if not (lease_is_current tenant_id generation lease)
      then (raise value_error, journal)
      else let entries = entries_of tenant_id journal in
        let (outcome, entries') =
          append_events tenant_id (last_generation generation entries) (decision_ids entries) events
            entries in
        (outcome >>= λ _. ok (length entries' - 1), insert tenant_id entries' journal)

  -- `_read_snapshot`, which `read_from` iterates over
  unfoldable pub read_from :
      TenantId
      → (position : ℤ) → Dict (List (DecisionJournalEntry Turn State))
      → Result (List (DecisionJournalEntry Turn State))
  unfolding entries_of
  read_from tenant_id (negsuc n) journal = raise value_error
  read_from tenant_id (pos n) journal = ok (drop n (entries_of tenant_id journal))
