-- ===== src/Application/Arbiter/Denied.antt =====
-- application/decision.py: an acquisition of a ticket that raises gives back what it has acquired.
use mathlib.Core.Path.{subst}
use arena_hero_agent.Prelude.{ℕ, ◌≡◌, refl, sym, false, Option, none, some, eq_iff, inl, inr, arith}
use arena_hero_agent.Prelude.Exceptions.{
  Exception, Result, ok, raise, Result-cases, >>=-ok, ok-injective,
}
use arena_hero_agent.Domain.ValueObjects.{TenantId, DecisionId, Generation, DeadlineBudget}
use arena_hero_agent.Domain.TenantState.{TurnInput, TenantState, require_owner, observe_turn}
use arena_hero_agent.Domain.TenantState.Reducers.{IsCoherent}
use arena_hero_agent.Runtime.Leases.{
  Kind, writer, Coordinator, acquire, acquire_writer, acquire_decision, release,
}
use arena_hero_agent.Runtime.Leases as Leases
use arena_hero_agent.Runtime.Leases.Invariant.{IsValid}
use arena_hero_agent.Runtime.Leases.Run.{
  Reach, here, next, acquiring_decision, acquiring_writer, Reach-Persists, Reach-IsValid,
}
use arena_hero_agent.Runtime.StateStore.{lease_view}
use arena_hero_agent.Runtime.Leases.Lifecycle.{holder}
use arena_hero_agent.Application.Recovery.{Digests, RecoveredTenant, recover, reject_duplicate}
use arena_hero_agent.Application.Recovery.Replay.{recover-Replays}
use arena_hero_agent.Application.Arbiter.{DecisionContext, DecisionTicket, Stores, close}
use arena_hero_agent.Application.Arbiter.Acquire.{
  decision_context, ensure_snapshot, admit, reconfirm, confirm, with_leases, with_writer,
  with_recovered, with_admitted, acquire_ticket,
}
use arena_hero_agent.Application.Arbiter.FailClosed.{
  SameHolders, Acquired, acquire_refused, acquire_granted, acquire_never_raises, release_undoes,
  Acquired-keeps, both_undone,
}

-- The leases that `close` leaves.
abbrev given_back : DecisionTicket → Coordinator → Coordinator
given_back ticket s = (release ticket.writer_lease (release ticket.decision_lease s).1).1

close_gives_up :
    (ticket : DecisionTicket) (stores : Stores)
    → ticket.closed ≡ false
    → (close ticket stores).2.leases ≡ given_back ticket stores.leases
unfolding close
close_gives_up ticket stores o = ground arith

module _ (digests : Digests) (initial : TenantState) (generation : Generation) (turn : TurnInput)
    (decision : DecisionId) (clock : ℕ → ℕ) (budget : DeadlineBudget) where
  confirm_denied :
      (r : RecoveredTenant) (ticket : DecisionTicket) (stores : Stores) {x : Exception}
      → ticket.closed ≡ false
      → (confirm digests initial generation turn decision clock budget r ticket stores).0 ≡ raise x
      → (confirm digests initial generation turn decision clock budget r ticket stores).1.leases
        ≡ given_back ticket stores.leases
  unfolding confirm
  confirm_denied r ticket stores o e =
      elim (Result-cases
        (reconfirm digests initial generation turn decision clock budget r stores)) [
          | inl (x, bad) ↦ ground (arith, close_gives_up ticket stores)
          | inr (current, good) ↦
              let lease = lease_view ticket.writer_lease (clock 2) stores.leases in
              let states = (ensure_snapshot digests current lease stores.states).1 in
              ground (arith, close_gives_up ticket (record stores { states = states }))
        ]

  pub admit_parts :
      (stores : Stores) {r : RecoveredTenant}
      → admit digests initial generation turn decision clock budget stores ≡ ok r
      → (recover digests initial generation stores.journal stores.states ≡ ok r)
        × (reject_duplicate r decision ≡ ok tt)
        × ((o : TenantState) × (observe_turn digests.economy_input r.state turn initial.tenant_id
              ≡ ok o))
  unfolding admit
  admit_parts stores {r} e =
      let (s, recovered, rest) =
        >>=-ok (recover digests initial generation stores.journal stores.states) _ e in
      let (_, fresh, rest') = >>=-ok (reject_duplicate s decision) _ rest in
      let (o, observed, same) =
        >>=-ok (observe_turn digests.economy_input s.state turn initial.tenant_id) _ rest' in
      subst
        (λ r.
          (recover digests initial generation stores.journal stores.states ≡ ok r)
          × (reject_duplicate r decision ≡ ok tt)
          × ((o : TenantState) × (observe_turn digests.economy_input r.state turn initial.tenant_id
                ≡ ok o)))
        (ok-injective same) (recovered, fresh, (o, observed))

  -- The context that a recovered revision makes always passes its checks.
  context_made :
      (stores : Stores) (r : RecoveredTenant)
      → IsCoherent initial
      → admit digests initial generation turn decision clock budget stores ≡ ok r
      → let context : DecisionContext = record {
        tenant_id = initial.tenant_id;
        generation = r.generation;
        state_digest = r.state_digest;
        state = r.state;
        turn = turn;
        decision_id = decision;
      } in
        decision_context digests context ≡ ok context
  unfolding decision_context require_owner
  context_made stores r c e =
      let (recovered, _, (o, observed)) = admit_parts stores e in
      let (replays, _) =
        recover-Replays digests initial generation stores.journal stores.states c recovered in
      ground (
        arith,
        observed,
        replays.owner,
        replays.digested,
        eq_iff initial.tenant_id r.state.tenant_id,
        eq_iff (digests.tenant_state r.state) r.state_digest,
      )

  module _ (stores : Stores) (r : RecoveredTenant) (c : IsCoherent initial)
      (admitted : admit digests initial generation turn decision clock budget stores ≡ ok r) where
    with_leases_denied :
        (w d : ℕ) (now : Stores) {x : Exception}
        → (with_leases digests initial generation turn decision clock budget r w d now).0 ≡ raise x
        → (with_leases digests initial generation turn decision clock budget r w d now).1.leases
          ≡ (release w (release d now.leases).1).1
    unfolding with_leases
    with_leases_denied w d now {x} e = ground (
      arith,
      context_made stores r c admitted,
      confirm_denied r
          (record {
            context = record {
              tenant_id = initial.tenant_id;
              generation = r.generation;
              state_digest = r.state_digest;
              state = r.state;
              turn = turn;
              decision_id = decision;
            };
            decision_lease = d;
            writer_lease = w;
            initial_state = initial;
            initial_generation = generation;
            closed = false;
          })
          now {x = x} refl,
    )

    -- Whether an outcome, with the leases at that point, leaves the holders of `first` if it raises.
    abbrev Restores : (w : ℕ) → (first : Coordinator) → Stores → Result (Option ℕ) → Type 0
    Restores w first now outcome =
        (x : Exception)
        → (with_writer digests initial generation turn decision clock budget r w outcome now).0
          ≡ raise x
        → SameHolders first
            (with_writer digests initial generation turn decision clock budget r w outcome
              now).1.leases

    module _ (w : ℕ) (first : Coordinator) (s now : Stores)
        (a : Acquired writer initial.tenant_id w first s.leases)
        (run : Reach s.leases now.leases) where
      refused-Restores : SameHolders s.leases now.leases → Restores w first now (ok none)
      unfolding with_writer
      refused-Restores same x e =
          (release_undoes writer initial.tenant_id w first now.leases (
            Acquired-keeps writer initial.tenant_id w first s.leases now.leases a same
              (Reach-Persists w run a.issued))).1

      granted-Restores :
          (d : ℕ)
          → Acquired Leases.decision initial.tenant_id d s.leases now.leases
          → Restores w first now (ok (some d))
      unfolding with_writer
      granted-Restores d b x e =
          subst (SameHolders first) (sym (with_leases_denied w d now e))
            (both_undone initial.tenant_id w d first s.leases now.leases a b run).1

    with_writer-Restores :
        (w : ℕ) (first : Coordinator) (s : Stores)
        → Acquired writer initial.tenant_id w first s.leases
        → IsValid s.leases
        → let grant =
            acquire_decision initial.tenant_id r.generation decision budget (clock 1) s.leases in
          Restores w first (record s { leases = grant.1 }) grant.0
    unfolding acquire_decision
    with_writer-Restores w first s a v =
        let tenant = initial.tenant_id in
        let k = Leases.decision in
        let grant = acquire k tenant r.generation (some decision) budget (clock 1) s.leases in
        let now : Stores = record s { leases = grant.1 } in
        let run : Reach s.leases grant.1 =
          next here (acquiring_decision tenant r.generation decision budget (clock 1)) in
        elim (Result-cases grant.0) [
          | inl (y, bad) ↦ absurd (
              acquire_never_raises k tenant r.generation (some decision) budget (clock 1) s.leases v
                y bad)
          | inr (none, good) ↦ subst (Restores w first now) (sym good) (
              refused-Restores w first s now a run (
                acquire_refused k tenant r.generation (some decision) budget (clock 1) s.leases
                  good))
          | inr (some d, good) ↦ subst (Restores w first now) (sym good) (
              granted-Restores w first s now a run d (
                acquire_granted k tenant r.generation (some decision) budget (clock 1) s.leases v
                  good))
        ]

    abbrev Denies : Stores → Stores → Result (Option ℕ) → Type 0
    Denies before now outcome =
        (x : Exception)
        → (with_recovered digests initial generation turn decision clock budget r outcome now).0
          ≡ raise x
        → SameHolders before.leases
            (with_recovered digests initial generation turn decision clock budget r outcome
              now).1.leases

    with_recovered-Denies :
        (s : Stores)
        → IsValid s.leases
        → let grant = acquire_writer initial.tenant_id r.generation budget (clock 0) s.leases in
          Denies s (record s { leases = grant.1 }) grant.0
    unfolding acquire_writer with_recovered
    with_recovered-Denies s v =
        let tenant = initial.tenant_id in
        let grant = acquire writer tenant r.generation none budget (clock 0) s.leases in
        let now : Stores = record s { leases = grant.1 } in
        let run : Reach s.leases grant.1 =
          next here (acquiring_writer tenant r.generation budget (clock 0)) in
        elim (Result-cases grant.0) [
          | inl (y, bad) ↦ absurd (
              acquire_never_raises writer tenant r.generation none budget (clock 0) s.leases v y
                bad)
          | inr (none, good) ↦ subst (Denies s now) (sym good) (λ x e.
              acquire_refused writer tenant r.generation none budget (clock 0) s.leases good)
          | inr (some w, good) ↦ subst (Denies s now) (sym good) (
              with_writer-Restores w s.leases now
                (acquire_granted writer tenant r.generation none budget (clock 0) s.leases v good)
                (Reach-IsValid run v))
        ]

  -- An acquisition that raises, on a valid coordinator and from a coherent initial state, leaves each
  -- lease slot of each tenant with the holder that it had: what was acquired has been given back.
  pub acquire_ticket_fails_closed :
      (stores : Stores) (kind : Kind) (tenant : TenantId) {x : Exception}
      → IsCoherent initial
      → IsValid stores.leases
      → (acquire_ticket digests initial generation turn decision clock budget stores).0 ≡ raise x
      → let after =
          (acquire_ticket digests initial generation turn decision clock budget stores).1 in
        holder kind tenant after.leases ≡ holder kind tenant stores.leases
  unfolding acquire_ticket with_admitted
  acquire_ticket_fails_closed stores kind tenant {x} c v e =
      let attempt = with_admitted digests initial generation turn decision clock budget in
      let Denied : Result RecoveredTenant → Type 0 = λ outcome.
        (attempt outcome stores).0 ≡ raise x
        → holder kind tenant (attempt outcome stores).1.leases ≡ holder kind tenant stores.leases in
      elim (Result-cases (admit digests initial generation turn decision clock budget stores)) [
        | inl (y, bad) ↦ subst Denied (sym bad) (λ _. refl) e
        | inr (r, good) ↦
            subst Denied (sym good)
              (λ f. with_recovered-Denies stores r c good stores v x f kind tenant) e
      ]
