-- ===== src/Application/Arbiter/Leases.antt =====
-- application/decision.py: the leases of a ticket, which every commit gives back.
use arena_hero_agent.Prelude.{
  ℕ, ◌<◌, ◌≡◌, ◌≢◌, refl, sym, ap, ◌∙◌, Bool, true, false, inl, inr, arith, Bool-cases,
}
use mathlib.Core.Path.{subst}
use arena_hero_agent.Prelude.Exceptions.{Result, ok, raise, Result-cases}
use arena_hero_agent.Domain.ValueObjects.{DeadlineBudget}
use arena_hero_agent.Runtime.Leases.{active, Coordinator, disposition, release}
use arena_hero_agent.Runtime.StateStore.{is_active}
use arena_hero_agent.Runtime.Leases.Invariant.{IsValid}
use arena_hero_agent.Runtime.Leases.Run.{
  Reach, here, next, renewing, releasing, Reach-IsValid, Reach-Persists,
}
use arena_hero_agent.Runtime.Leases.Exclusion.{dead_handle_stays_dead}
use arena_hero_agent.Application.Recovery.{Digests, Entry}
use arena_hero_agent.Application.Arbiter.{
  DecisionTicket, CommittedDecision, Stores, close, and_renew, leases_current, prepare, write,
  commit_current, commit,
}

-- A released handle is dead, and releasing an issued handle of a valid coordinator never raises.
release_dead :
    (p : ℕ) (s : Coordinator)
    → IsValid s
    → p < s.next_handle
    → ((release p s).0 ≡ ok tt) × (((release p s).1.handles p).disposition ≢ active)
unfolding release
release_dead p s v lt = ground (arith, v.is_held p lt, v.has_slot p lt)

Reach-trans : {s t u : Coordinator} → Reach s t → Reach t u → Reach s u
Reach-trans r here = r
Reach-trans r (next q st) = next (Reach-trans r q) st

-- Both leases of a ticket have been issued.
pub record IsIssued (ticket : DecisionTicket) (s : Coordinator) : Type 0 where
  pub writer_issued : ticket.writer_lease < s.next_handle
  pub decision_issued : ticket.decision_lease < s.next_handle

IsIssued-Reach :
    (ticket : DecisionTicket) {s t : Coordinator}
    → Reach s t
    → IsIssued ticket s
    → IsIssued ticket t
IsIssued-Reach ticket r i =
    let w = Reach-Persists ticket.writer_lease r i.writer_issued in omega (arith, w.issued)

and_renew-Reach :
    {s : Coordinator} (x : Result Bool × Coordinator) (k : Coordinator → Result Bool × Coordinator)
    → Reach s x.1
    → ((u : Coordinator) → Reach s u → Reach s (k u).1)
    → Reach s (and_renew x k).1
and_renew-Reach (ok true, u) k r h = h u r
and_renew-Reach (ok false, u) k r h = r
and_renew-Reach (raise e, u) k r h = r

-- The condition of a commit only renews the two leases.
leases_current-Reach :
    (clock : ℕ → ℕ) (budget : DeadlineBudget) (ticket : DecisionTicket) (s : Coordinator)
    → IsIssued ticket s
    → Reach s (leases_current clock budget ticket s).1
unfolding leases_current
leases_current-Reach clock budget ticket s i =
    elim (Bool-cases (is_active (disposition ticket.writer_lease (clock 0) s))) [
      | inr lost ↦ rw lost here
      | inl w ↦
          rw w (elim (Bool-cases (is_active (disposition ticket.decision_lease (clock 1) s))) [
            | inr lost ↦ rw lost here
            | inl d ↦ rw d (
                and_renew-Reach _ _
                  (next here
                    (renewing ticket.writer_lease budget (clock 2) (clock 3) i.writer_issued))
                  (λ u r. next r (
                    renewing ticket.decision_lease budget (clock 4) (clock 5)
                      (IsIssued-Reach ticket r i).decision_issued)))
          ])
    ]

module _ (digests : Digests) (clock : ℕ → ℕ) (ticket : DecisionTicket) where
  write_leases :
      (entry : Entry) (stores : Stores)
      → (write digests clock ticket entry stores).1.leases ≡ stores.leases
  unfolding write
  write_leases entry stores = ground arith

  commit_current_leases :
      (current : Result Bool) (stores : Stores)
      → (commit_current digests clock ticket current stores).1.leases ≡ stores.leases
  commit_current_leases (raise e) stores = refl
  commit_current_leases (ok false) stores = refl
  commit_current_leases (ok true) stores = elim (Result-cases (prepare digests ticket stores)) [
    | inl (x, bad) ↦ rw bad
    | inr (entry, good) ↦ rw good (write_leases entry stores)
  ]

-- What a closed ticket leaves.
pub record IsClosed (ticket : DecisionTicket) (s s' : Coordinator) : Type 0 where
  pub run : Reach s s'
  pub writer_dead : (s'.handles ticket.writer_lease).disposition ≢ active
  pub decision_dead : (s'.handles ticket.decision_lease).disposition ≢ active

close-IsClosed :
    (ticket : DecisionTicket) (stores : Stores)
    → IsValid stores.leases
    → IsIssued ticket stores.leases
    → ticket.closed ≡ false
    → ((close ticket stores).0 ≡ ok tt)
      × ((close ticket stores).1.closed ≡ true)
      × IsClosed ticket stores.leases (close ticket stores).2.leases
unfolding close
close-IsClosed ticket stores v i o =
    let s = stores.leases in
    let first = release ticket.decision_lease s in
    let second = release ticket.writer_lease first.1 in
    let run : Reach s first.1 = next here (releasing ticket.decision_lease i.decision_issued) in
    let issued = IsIssued-Reach ticket run i in
    let (gave_decision, decision_dead) = release_dead ticket.decision_lease s v i.decision_issued in
    let (gave_writer, writer_dead) =
      release_dead ticket.writer_lease first.1 (Reach-IsValid run v) issued.writer_issued in
    let last : Reach first.1 second.1 =
      next here (releasing ticket.writer_lease issued.writer_issued) in
    rw o (
      rw (gave_writer, gave_decision),
      refl,
      record {
        run = next run (releasing ticket.writer_lease issued.writer_issued);
        writer_dead = writer_dead;
        decision_dead =
            (Reach-Persists ticket.decision_lease last issued.decision_issued).dead decision_dead;
      },
    )

-- What the `try` block of a commit leaves, for the `finally` clause.
abbrev committed_body :
    Digests
    → (clock : ℕ → ℕ) → DeadlineBudget
    → DecisionTicket
    → Stores
    → Result CommittedDecision × Stores
committed_body digests clock budget ticket stores =
    let renewed = leases_current clock budget ticket stores.leases in
    commit_current digests clock ticket renewed.0 (record stores { leases = renewed.1 })

commit_open :
    (digests : Digests) (clock : ℕ → ℕ) (budget : DeadlineBudget) (ticket : DecisionTicket)
    (stores : Stores)
    → ticket.closed ≡ false
    → let closing = close ticket (committed_body digests clock budget ticket stores).1 in
      let outcome = commit digests clock budget ticket stores in
      (outcome.1 ≡ closing.1) × (outcome.2 ≡ closing.2)
unfolding commit
commit_open digests clock budget ticket stores o = ground arith

-- Whatever a commit of an open ticket returns or raises, it closes the ticket, and afterwards neither
-- of its leases is active, at any reading of the clock and after any further operations of the
-- coordinator. The coordinator is valid, and has issued both leases.
pub commit_closes :
    (digests : Digests) (clock : ℕ → ℕ) (budget : DeadlineBudget) (ticket : DecisionTicket)
    (stores : Stores) (now : ℕ) {s' : Coordinator}
    → IsValid stores.leases
    → IsIssued ticket stores.leases
    → ticket.closed ≡ false
    → let (outcome, ticket', stores') = commit digests clock budget ticket stores in
      Reach stores'.leases s'
      → (ticket'.closed ≡ true)
        × (disposition ticket.writer_lease now s' ≢ active)
        × (disposition ticket.decision_lease now s' ≢ active)
commit_closes digests clock budget ticket stores now {s'} v i o run =
    let s = stores.leases in
    let renewed = leases_current clock budget ticket s in
    let renewal = leases_current-Reach clock budget ticket s i in
    let body = committed_body digests clock budget ticket stores in
    let (same_ticket, same_stores) = commit_open digests clock budget ticket stores o in
    let kept =
      commit_current_leases digests clock ticket renewed.0 (record stores { leases = renewed.1 }) in
    let (_, closed, dead) =
      close-IsClosed ticket body.1 (subst IsValid (sym kept) (Reach-IsValid renewal v))
        (subst (IsIssued ticket) (sym kept) (IsIssued-Reach ticket renewal i)) o in
    let later : Reach (close ticket body.1).2.leases s' =
      subst (λ (t : Stores). Reach t.leases s') same_stores run in
    let issued =
      IsIssued-Reach ticket dead.run
        (subst (IsIssued ticket) (sym kept) (IsIssued-Reach ticket renewal i)) in
    (
      ap (λ (t : DecisionTicket). t.closed) same_ticket ∙ closed,
      (dead_handle_stays_dead ticket.writer_lease now later issued.writer_issued
          dead.writer_dead).0,
      (dead_handle_stays_dead ticket.decision_lease now later issued.decision_issued
          dead.decision_dead).0,
    )
