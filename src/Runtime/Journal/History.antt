-- ===== src/Runtime/Journal/History.antt =====
-- The invariant of a tenant's entries, over every run of appends.
use mathlib.Core.Path.{subst}
use arena_hero_agent.Prelude.{
  ℕ, zero, suc, ◌+◌, ◌≡◌, refl, sym, inl, inr, false, ◌||◌, not, Option, some, List, [], ◌∷◌, ◌++◌,
  length, get_elem?, if◌then◌else◌, str_eq, eq_iff, arith, Bool-cases, length-append,
}
use arena_hero_agent.Prelude.Dict.{Dict, mem_text, lookup, insert}
use arena_hero_agent.Prelude.Sort.{has_duplicate, Among, mem_text-append, has_duplicate-append}
use arena_hero_agent.Prelude.Exceptions.{ok}
use arena_hero_agent.Domain.ValueObjects.{TenantId, DecisionId, Generation}
use arena_hero_agent.Runtime.StateStore.{StateView, LeaseView}
use arena_hero_agent.Runtime.Journal.{
  DecisionJournalEntry, journal_entry, decision_ids, last_generation, append_events, is_empty,
  lease_is_current, entries_of, append,
}
use arena_hero_agent.Runtime.Journal.Append.{refuses, append_events-refused, entries_of-insert}

module _ {Turn State : Type 0} where
  -- Entries of one tenant, the first after generation g, each one generation after the one before.
  pub IsLinked : TenantId → ℕ → List (DecisionJournalEntry Turn State) → Type 0
  IsLinked t g [] = Unit
  IsLinked t g (e ∷ entries) =
      (e.tenant_id ≡ t)
      × (e.previous_generation.value ≡ g)
      × (e.generation.value ≡ g + 1)
      × IsLinked t (g + 1) entries

  IsLinked-append :
      (t : TenantId) (g : ℕ) (entries : List (DecisionJournalEntry Turn State))
      (e : DecisionJournalEntry Turn State)
      → IsLinked t g entries
      → e.tenant_id ≡ t
      → e.previous_generation.value ≡ g + length entries
      → e.generation.value ≡ e.previous_generation.value + 1
      → IsLinked t g (entries ++ e ∷ [])
  unfolding IsLinked
  IsLinked-append t g [] e linked own after next = (own, omega arith, omega arith, tt)
  IsLinked-append t g (x ∷ entries) e (o, p, n, linked) own after next =
      (o, p, n, IsLinked-append t (g + 1) entries e linked own (omega arith) next)

  last_generation-IsLinked :
      (t : TenantId) (d : Generation) (entries : List (DecisionJournalEntry Turn State))
      → IsLinked t d.value entries
      → (last_generation d entries).value ≡ d.value + length entries
  unfolding IsLinked
  last_generation-IsLinked t d [] linked = omega arith
  last_generation-IsLinked t d (e ∷ entries) (_, _, n, linked) = omega (
    arith,
    n,
    last_generation-IsLinked t e.generation entries
        (subst (λ g. IsLinked t g entries) (sym n) linked),
  )

  abbrev pub IsHistory : TenantId → List (DecisionJournalEntry Turn State) → Type 0
  IsHistory t entries =
      ((g : ℕ) × IsLinked t g entries) × (has_duplicate (decision_ids entries) ≡ false)

-- Where the loop over the events starts.
restart :
    {Turn State : Type 0} (t : TenantId) (d : Generation)
    (entries : List (DecisionJournalEntry Turn State))
    → ((g : ℕ) × IsLinked t g entries)
    → (g : ℕ) × IsLinked t g entries × ((last_generation d entries).value ≡ g + length entries)
unfolding IsLinked
restart t d [] _ = (d.value, tt, omega arith)
restart t d (e ∷ entries) (g, linked) =
    let (_, _, next, rest) = linked in
    (
      g,
      linked,
      omega (
        arith,
        next,
        last_generation-IsLinked t e.generation entries
            (subst (λ g. IsLinked t g entries) (sym next) rest),
      ),
    )

append-journal :
    {Turn State : Type 0} (t : TenantId) (generation : Generation)
    (events : List (DecisionJournalEntry Turn State)) (lease : LeaseView)
    (journal : Dict (List (DecisionJournalEntry Turn State)))
    → (append t generation events lease journal).1 ≡ (
        let entries = entries_of t journal in
        if is_empty events || not (lease_is_current t generation lease)
        then journal
        else insert t
            (append_events t
              (last_generation generation entries)
              (decision_ids entries)
              events
              entries).1
            journal)
unfolding append
append-journal t generation events lease journal = ground arith

module _ {Turn State : Type 0} (view : StateView State)
    (last_decision_id : State → Option DecisionId) where
  -- Events that the constructor of entries has let through.
  abbrev pub AreMade : List (DecisionJournalEntry Turn State) → Type 0
  AreMade events =
      (event : DecisionJournalEntry Turn State)
      → Among event events
      → journal_entry view last_decision_id event ≡ ok event

  made-generation :
      (event : DecisionJournalEntry Turn State)
      → journal_entry view last_decision_id event ≡ ok event
      → event.generation.value ≡ event.previous_generation.value + 1
  unfolding journal_entry
  made-generation event made = ground arith

  append_events-IsHistory :
      (t : TenantId) (g : ℕ) (current : Generation) (seen : List DecisionId)
      (events entries : List (DecisionJournalEntry Turn State))
      → AreMade events
      → IsLinked t g entries
      → has_duplicate (decision_ids entries) ≡ false
      → current.value ≡ g + length entries
      → ((k : DecisionId) → mem_text k seen ≡ mem_text k (decision_ids entries))
      → IsHistory t (append_events t current seen events entries).1
  unfolding append_events
  append_events-IsHistory t g current seen [] entries made linked distinct here known =
      ((g, linked), distinct)
  append_events-IsHistory t g current seen (event ∷ events) entries made linked distinct here
        known =
      elim (Bool-cases (refuses t current seen event)) [
        | inl refused ↦
            rw (append_events-refused t current seen event events entries, refused)
              ((g, linked), distinct)
        | inr accepted ↦
            let next = made-generation event (made event (inl refl)) in
            rw (append_events-refused t current seen event events entries, accepted)
              (append_events-IsHistory t g event.generation (event.decision_id ∷ seen) events
                (entries ++ event ∷ []) (λ e among. made e (inr among))
                (IsLinked-append t g entries event linked (ground (arith, eq_iff event.tenant_id t))
                  (ground arith) next)
                (ground (
                  arith,
                  has_duplicate-append (λ e. e.decision_id) entries event,
                  known event.decision_id,
                ))
                (ground (arith, length-append entries (event ∷ [])))
                (λ k.
                  ground (arith, known k, mem_text-append (λ e. e.decision_id) k entries event)))
      ]

  append-IsHistory :
      (t u : TenantId) (generation : Generation) (events : List (DecisionJournalEntry Turn State))
      (lease : LeaseView) (journal : Dict (List (DecisionJournalEntry Turn State)))
      → AreMade events
      → ((v : TenantId) → IsHistory v (entries_of v journal))
      → IsHistory u (entries_of u (append t generation events lease journal).1)
  append-IsHistory t u generation events lease journal made h =
      let entries = entries_of t journal in
      let current = last_generation generation entries in
      let (g, linked, here) = restart t generation entries (h t).0 in
      let after = (append_events t current (decision_ids entries) events entries).1 in
      let kept = entries_of-insert t u after journal in
      elim (Bool-cases (is_empty events || not (lease_is_current t generation lease))) [
        | inl refused ↦ rw (append-journal t generation events lease journal, refused) (h u)
        | inr admitted ↦
            rw (append-journal t generation events lease journal, admitted)
              (elim (Bool-cases (str_eq u t)) [
                | inl own ↦
                    rw (kept, own)
                      (subst (λ v. IsHistory v after) (sym ((eq_iff u t).0 own))
                        (append_events-IsHistory t g current (decision_ids entries) events entries
                          made linked (h t).1 here (λ k. refl)))
                | inr other ↦ rw (kept, other) (h u)
              ])
      ]

  -- Any runs of appends of made entries.
  pub data Appends (start : Dict (List (DecisionJournalEntry Turn State)))
      : Dict (List (DecisionJournalEntry Turn State)) → Type 0 where
    none_yet : Appends start start
    appended :
        {journal : Dict (List (DecisionJournalEntry Turn State))}
        → Appends start journal
        → (t : TenantId) (generation : Generation) (events : List (DecisionJournalEntry Turn State))
          (lease : LeaseView)
        → AreMade events
        → Appends start (append t generation events lease journal).1

  Appends-IsHistory :
      (t : TenantId) {journal : Dict (List (DecisionJournalEntry Turn State))}
      → Appends [] journal
      → IsHistory t (entries_of t journal)
  unfolding IsLinked has_duplicate entries_of lookup
  Appends-IsHistory t none_yet = ((0, tt), refl)
  Appends-IsHistory t (appended {journal = journal} run u generation events lease made) =
      append-IsHistory u t generation events lease journal made (λ v. Appends-IsHistory v run)

get_elem?-IsLinked :
    {Turn State : Type 0} (t : TenantId) (g i : ℕ)
    (entries : List (DecisionJournalEntry Turn State)) {e : DecisionJournalEntry Turn State}
    → IsLinked t g entries
    → get_elem? entries i ≡ some e
    → (e.tenant_id ≡ t) × (e.generation.value ≡ g + i + 1)
unfolding IsLinked
get_elem?-IsLinked t g i [] linked found = ground arith
get_elem?-IsLinked t g zero (x ∷ entries) {e} (own, after, next, linked) found = ground arith
get_elem?-IsLinked t g (suc i) (x ∷ entries) {e} (own, after, next, linked) found =
    ground (arith, get_elem?-IsLinked t (g + 1) i entries {e = e} linked found)

-- After any appends of well-formed events to the empty journal, those that raise included, a
-- tenant's entries are its own, their generations rise by exactly one from each position to the
-- next, and no decision id occurs twice among them.
pub history_contiguous :
    {Turn State : Type 0} (view : StateView State) (last_decision_id : State → Option DecisionId)
    (t : TenantId) {journal : Dict (List (DecisionJournalEntry Turn State))} (i j : ℕ)
    {e e' : DecisionJournalEntry Turn State}
    → Appends view last_decision_id [] journal
    → get_elem? (entries_of t journal) i ≡ some e
    → get_elem? (entries_of t journal) j ≡ some e'
    → (e.tenant_id ≡ t)
      × (e.generation.value + j ≡ e'.generation.value + i)
      × (has_duplicate (decision_ids (entries_of t journal)) ≡ false)
history_contiguous view last_decision_id t {journal} i j {e} {e'} run at_i at_j =
    let ((g, linked), distinct) = Appends-IsHistory view last_decision_id t run in
    let (own, n) = get_elem?-IsLinked t g i (entries_of t journal) {e = e} linked at_i in
    let (_, n') = get_elem?-IsLinked t g j (entries_of t journal) {e = e'} linked at_j in
    (own, omega (arith, n, n'), distinct)
