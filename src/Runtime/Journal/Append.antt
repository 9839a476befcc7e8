-- ===== src/Runtime/Journal/Append.antt =====
-- What an append does to the journal, and reading it back.
use arena_hero_agent.Prelude.{
  ℕ, suc, ◌+◌, ◌<◌, ◌≡◌, refl, sym, ap, ◌∙◌, not, Bool, ◌||◌, ◌⊎◌, inl, inr, false, List, [], ◌∷◌,
  ◌++◌, length, take, drop, if◌then◌else◌, str_eq, eq_iff, arith, Bool-cases, length-append,
}
use arena_hero_agent.Prelude.Int.{pos}
use arena_hero_agent.Prelude.Dict.{Dict, insert, mem_text, lookup-insert}
use arena_hero_agent.Prelude.Exceptions.{Exception, Result, ok, raise, value_error}
use arena_hero_agent.Domain.ValueObjects.{TenantId, DecisionId, Generation}
use arena_hero_agent.Runtime.StateStore.{LeaseView, eq_generation}
use arena_hero_agent.Runtime.Journal.{
  DecisionJournalEntry, decision_ids, last_generation, append_events, is_empty, lease_is_current,
  entries_of, append, read_from,
}

module _ {A : Type 0} where
  append_assoc : (xs ys zs : List A) → (xs ++ ys) ++ zs ≡ xs ++ (ys ++ zs)
  append_assoc [] ys zs = refl
  append_assoc (x ∷ xs) ys zs = rw (append_assoc xs ys zs) refl

  append-nil : (xs : List A) → xs ++ [] ≡ xs
  append-nil [] = refl
  append-nil (x ∷ xs) = rw (append-nil xs) refl

  drop-length-append : (xs ys : List A) → drop (length xs) (xs ++ ys) ≡ ys
  drop-length-append [] ys = refl
  drop-length-append (x ∷ xs) ys = drop-length-append xs ys

  take-length : (xs : List A) → take (length xs) xs ≡ xs
  take-length [] = refl
  take-length (x ∷ xs) = rw (take-length xs) refl

length-nonempty :
    {Turn State : Type 0} (events : List (DecisionJournalEntry Turn State))
    → is_empty events ≡ false
    → 0 < length events
length-nonempty [] e = ground arith
length-nonempty (event ∷ events) e = omega arith

module _ {Turn State : Type 0} (t : TenantId) where
  -- The three tests of one round of the loop.
  abbrev pub refuses : Generation → List DecisionId → DecisionJournalEntry Turn State → Bool
  refuses current seen event =
      not (str_eq event.tenant_id t)
      || not (eq_generation event.previous_generation current)
      || mem_text event.decision_id seen

  pub append_events-refused :
      (current : Generation) (seen : List DecisionId) (event : DecisionJournalEntry Turn State)
      (events entries : List (DecisionJournalEntry Turn State))
      → append_events t current seen (event ∷ events) entries ≡ (
          if refuses current seen event
          then (raise value_error, entries)
          else append_events t event.generation
              (event.decision_id ∷ seen)
              events
              (entries ++ event ∷ []))
  unfolding append_events
  append_events-refused current seen event events entries = ground arith

  -- The loop appends a prefix of the events: all of them, or those before the one that it refuses.
  pub append_events-prefix :
      (current : Generation) (seen : List DecisionId)
      (events entries : List (DecisionJournalEntry Turn State))
      → (k : ℕ) × ((append_events t current seen events entries).1 ≡ entries ++ take k events)
        × ((((append_events t current seen events entries).0 ≡ ok tt) × (k ≡ length events))
            ⊎ (((append_events t current seen events entries).0 ≡ raise value_error)
                × (k < length events)))
  unfolding append_events
  append_events-prefix current seen [] entries = (0, sym (append-nil entries), inl (refl, refl))
  append_events-prefix current seen (event ∷ events) entries =
      elim (Bool-cases (refuses current seen event)) [
        | inl refused ↦
            rw (append_events-refused current seen event events entries, refused)
              (0, sym (append-nil entries), inr (refl, omega arith))
        | inr accepted ↦
            let (k, kept, ends) =
              append_events-prefix event.generation (event.decision_id ∷ seen) events
                (entries ++ event ∷ []) in
            rw (append_events-refused current seen event events entries, accepted)
              (suc k, kept ∙ append_assoc entries (event ∷ []) (take k events), ground arith)
      ]

  pub entries_of-insert :
      (u : TenantId) (es : List (DecisionJournalEntry Turn State))
      (journal : Dict (List (DecisionJournalEntry Turn State)))
      → entries_of u (insert t es journal) ≡ (if str_eq u t then es else entries_of u journal)
  unfolding entries_of
  entries_of-insert u es journal = ground (arith, lookup-insert t u es journal)

  module _ (generation : Generation) (events : List (DecisionJournalEntry Turn State))
      (lease : LeaseView) (journal : Dict (List (DecisionJournalEntry Turn State))) where
    abbrev entries : List (DecisionJournalEntry Turn State)
    entries = entries_of t journal

    abbrev ran : Result (Unit {0}) × List (DecisionJournalEntry Turn State)
    ran = append_events t (last_generation generation entries) (decision_ids entries) events entries

    looped :
        (k : ℕ) × (ran.1 ≡ entries ++ take k events)
        × (((ran.0 ≡ ok tt) × (k ≡ length events))
            ⊎ ((ran.0 ≡ raise value_error) × (k < length events)))
    looped =
        append_events-prefix (last_generation generation entries) (decision_ids entries) events
          entries

    -- An append that returns has put all the events, in their order, behind the tenant's entries,
    -- and returns the position of the last one; another tenant's entries are as they were.
    pub append_returns :
        (u : TenantId) (n : ℕ)
        → (append t generation events lease journal).0 ≡ ok n
        → (entries_of u (append t generation events lease journal).1
            ≡ (if str_eq u t then entries_of t journal ++ events else entries_of u journal))
          × (n + 1 ≡ length (entries_of t journal ++ events))
    unfolding append
    append_returns u n e =
        elim (Bool-cases (is_empty events || not (lease_is_current t generation lease))) [
          | inl refused ↦ ground arith
          | inr admitted ↦ elim looped.2 [
            | inl (returned, all) ↦ (
              ground (
                arith,
                entries_of-insert u ran.1 journal,
                ap (λ k. take k events) all,
                take-length events,
                ap (λ taken. entries ++ taken) (ap (λ k. take k events) all ∙ take-length events),
                looped.1,
              ),
              ground (
                arith,
                length-append entries events,
                length-nonempty events,
                ap length (
                    looped.1
                    ∙ ap (λ taken. entries ++ taken)
                        (ap (λ k. take k events) all ∙ take-length events)),
              ),
            )
            | inr (raised, _) ↦ ground arith
          ]
        ]

    -- An append that raises raises a ValueError. It may have put events before the refused one behind
    -- the tenant's entries, possibly none and never all; another tenant's entries are as they were.
    pub append_raises :
        (u : TenantId) (x : Exception)
        → (append t generation events lease journal).0 ≡ raise x
        → (x ≡ value_error)
          × (k : ℕ) × ((k ≡ 0) ⊎ (k < length events))
          × (entries_of u (append t generation events lease journal).1 ≡ (
              if str_eq u t then entries_of t journal ++ take k events else entries_of u journal))
    unfolding append
    append_raises u x e =
        elim (Bool-cases (is_empty events || not (lease_is_current t generation lease))) [
          | inl refused ↦ (
            ground arith,
            0,
            inl refl,
            ground (
              arith,
              eq_iff u t,
              append-nil entries,
              ap (λ v. entries_of v journal) {x = u} {y = t},
            ),
          )
          | inr admitted ↦ elim looped.2 [
            | inl (returned, all) ↦ ground arith
            | inr (raised, short) ↦ (
              ground arith,
              looped.0,
              inr short,
              ground (arith, entries_of-insert u ran.1 journal, looped.1),
            )
          ]
        ]

    -- What an append returns from is read back: from the old number of entries on, the journal has
    -- the events.
    pub read_from-append :
        (n : ℕ)
        → (append t generation events lease journal).0 ≡ ok n
        → read_from t
            (pos (length (entries_of t journal)))
            (append t generation events lease journal).1
          ≡ ok events
    unfolding read_from
    read_from-append n e =
        let wrote = (append_returns t n e).0 in
        ground (
          arith,
          eq_iff t t,
          ap (λ es. drop (length entries) es) wrote,
          drop-length-append entries events,
        )
