-- ===== src/Runtime/Journal/Tests.antt =====
-- The journal on states that are triples of an owner, a digest and a decision id, and the theorems
-- at them.
use arena_hero_agent.Prelude.{
  ℕ, ◌+◌, ◌<◌, ◌≡◌, refl, ◌⊎◌, inl, inr, false, some, List, [], ◌∷◌, ◌++◌, take, String, str_eq,
}
use arena_hero_agent.Prelude.Int.{pos, negsuc}
use arena_hero_agent.Prelude.Dict.{Dict}
use arena_hero_agent.Prelude.Sort.{has_duplicate}
use arena_hero_agent.Prelude.Exceptions.{ok, raise, value_error}
use arena_hero_agent.Domain.ValueObjects.{Generation}
use arena_hero_agent.Runtime.Leases.{active}
use arena_hero_agent.Runtime.StateStore.{StateView, LeaseView}
use arena_hero_agent.Runtime.Journal.{
  DecisionJournalEntry, journal_entry, decision_ids, entries_of, append, read_from,
}
use arena_hero_agent.Runtime.Journal.Append.{append_raises}
use arena_hero_agent.Runtime.Journal.History.{none_yet, appended, AreMade, history_contiguous}

abbrev MadeState : Type 0
MadeState = String × String × String

abbrev view : StateView MadeState
view = record { owner = λ x. x.0; digest = λ x. x.1; equal = λ x y. str_eq x.1 y.1 }

abbrev gen : ℕ → Generation
gen n = record { value = n }

abbrev lease : LeaseView
lease = record { tenant_id = "a"; generation = gen 0; disposition = active }

abbrev entry : ℕ → String → DecisionJournalEntry ℕ MadeState
entry n d = record {
  tenant_id = "a";
  previous_generation = gen n;
  generation = gen (n + 1);
  previous_state_digest = "p";
  state_digest = "q";
  turn = n;
  decision_id = d;
  state = ("a", "q", d);
}

abbrev Journal : Type 0
Journal = Dict (List (DecisionJournalEntry ℕ MadeState))

abbrev two : List (DecisionJournalEntry ℕ MadeState)
two = entry 0 "d0" ∷ entry 1 "d1" ∷ []

abbrev no_entries : Journal
no_entries = []

abbrev kept : Journal
kept = (append "a" (gen 0) two lease no_entries).1

-- The third event repeats a decision id: the two before it stay in the journal.
runs :
    ((append "a" (gen 0) two lease no_entries).0 ≡ ok 1)
    × (entries_of "a" kept ≡ two)
    × (read_from "a" (pos 1) kept ≡ ok (entry 1 "d1" ∷ []))
    × (read_from "a" (negsuc 0) kept ≡ raise value_error)
    × ((append "a" (gen 0) (two ++ entry 2 "d0" ∷ []) lease no_entries).0 ≡ raise value_error)
    × (entries_of "a" (append "a" (gen 0) (two ++ entry 2 "d0" ∷ []) lease no_entries).1 ≡ two)
    × (journal_entry view (λ x. some x.2) (entry 4 "d") ≡ ok (entry 4 "d"))
unfolding append entries_of read_from journal_entry
runs = (refl, refl, refl, refl, refl, refl, refl)

two-AreMade : AreMade view (λ x. some x.2) two
unfolding journal_entry
two-AreMade event (inl e) = rw e refl
two-AreMade event (inr (inl e)) = rw e refl
two-AreMade event (inr (inr h)) = absurd h.lower

append_raises_example :
    (value_error ≡ value_error)
    × (k : ℕ) × ((k ≡ 0) ⊎ (k < 3))
    × (entries_of "a" (append "a" (gen 0) (two ++ entry 2 "d0" ∷ []) lease no_entries).1
        ≡ (entries_of "a" no_entries ++ take k (two ++ entry 2 "d0" ∷ [])))
unfolding append
append_raises_example =
    append_raises "a" (gen 0) (two ++ entry 2 "d0" ∷ []) lease no_entries "a" value_error refl

history_contiguous_example :
    ((entry 0 "d0").tenant_id ≡ "a")
    × (1 + 1 ≡ 2 + 0)
    × (has_duplicate (decision_ids (entries_of "a" kept)) ≡ false)
unfolding append entries_of
history_contiguous_example =
    history_contiguous view (λ x. some x.2) "a" {journal = kept} 0 1 {e = entry 0 "d0"}
      {e' = entry 1 "d1"} (appended none_yet "a" (gen 0) two lease two-AreMade) refl refl
