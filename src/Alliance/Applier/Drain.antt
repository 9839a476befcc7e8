-- ===== src/Alliance/Applier/Drain.antt =====
-- What a drain does to the bus.
use arena_hero_agent.Prelude.{
  ℕ, ◌+◌, ◌≡◌, ap, sym, ◌∙◌, ◌≢◌, inl, inr, true, false, none, some, Option, List, [], ◌∷◌, leb,
  arith, Bool-cases,
}
use arena_hero_agent.Prelude.Exceptions.{ok, Result-cases}
use arena_hero_agent.Domain.ValueObjects.{TenantId, DeadlineBudget}
use arena_hero_agent.Runtime.Leases.{Coordinator, active, acquire_writer}
use arena_hero_agent.Runtime.StateStore.{LeaseView, lease_view}
use arena_hero_agent.Alliance.Commands.{
  DirectorCommand, CommandDisposition, CommandResult, applied, duplicate, expired, Reason,
  has_expired, already_applied, validate_command,
}
use arena_hero_agent.Alliance.CommandBus.{
  Bus, empty_bus, is_among, pending, is_applied, mark_applied,
}
use arena_hero_agent.Alliance.CommandBus.Marks.{
  Run, here, and_then, marking, auditing, Run-is_among, Run-trans, Run-IsRecord, IsRecord,
}
use arena_hero_agent.Alliance.Applier.Handle.{handle_lem, handle-is_among}
use arena_hero_agent.Alliance.Applier.{
  CommandContext, Readings, is_accepted, answer, apply_fresh, handle, handle_each, drain,
}

answer-Run :
    (context : CommandContext) (command : DirectorCommand) (d : CommandDisposition)
    (reason : Option Reason) (tick : ℕ) (bus : Bus)
    → Run bus (answer context command d reason tick bus).1
unfolding answer
answer-Run context command d reason tick bus = and_then here (
    auditing context.tenant_id (record {
      command_id = command.command_id;
      tenant_id = context.tenant_id;
      disposition = d;
      reason = reason;
      generation = context.generation;
      tick = tick;
    }))

apply_fresh-Run :
    (context : CommandContext) (readings : Readings) (lease : LeaseView) (command : DirectorCommand)
    (bus : Bus)
    → Run bus (apply_fresh context readings lease command bus).1
unfolding apply_fresh
apply_fresh-Run context readings lease command bus =
    let t = context.tenant_id in
    let marked = mark_applied t command context.generation readings.fresh lease bus in
    let step : Run bus marked.1 =
      and_then here (marking t command context.generation readings.fresh lease) in
    elim (Bool-cases (leb command.expires_at_tick readings.fresh)) [
      | inl late ↦
          rw (late, apply_fresh)
            (answer-Run context command expired (some has_expired) readings.fresh bus)
      | inr in_time ↦
          rw (in_time, apply_fresh)
            (elim (Result-cases (is_applied t command bus)) [
              | inl (x, e) ↦ rw e here
              | inr (true, e) ↦
                  rw e
                    (answer-Run context command duplicate (some already_applied) readings.late bus)
              | inr (false, e) ↦ rw e (elim (Result-cases marked.0) [
                | inl (x, m) ↦ rw m step
                | inr (false, m) ↦ rw m (
                    Run-trans step (
                      answer-Run context command duplicate (some already_applied) readings.late
                        marked.1))
                | inr (true, m) ↦ rw m (
                    Run-trans step
                      (answer-Run context command applied none readings.fresh marked.1))
              ])
            ])
    ]

handle-Run :
    (context : CommandContext) (readings : Readings) (lease : LeaseView) (command : DirectorCommand)
    (bus : Bus)
    → Run bus (handle context readings lease command bus).1
unfolding handle
handle-Run context readings lease command bus =
    let t = context.tenant_id in
    let checked = validate_command command t context.generation readings.observed in
    elim (Bool-cases (is_accepted checked.0)) [
      | inr refused ↦
          rw (refused, handle)
            (answer-Run context command checked.0 checked.1 readings.observed bus)
      | inl sound ↦
          rw (sound, handle)
            (elim (Result-cases (is_applied t command bus)) [
              | inl (x, e) ↦ rw e here
              | inr (true, e) ↦
                  rw e
                    (answer-Run context command duplicate (some already_applied) readings.late bus)
              | inr (false, e) ↦ rw e (apply_fresh-Run context readings lease command bus)
            ])
    ]

handle_each-Run :
    (context : CommandContext) (readings : ℕ → Readings) (lease_at : ℕ → LeaseView) (i : ℕ)
    (commands : List DirectorCommand) (bus : Bus)
    → Run bus (handle_each context readings lease_at i commands bus).1
unfolding handle_each
handle_each-Run context readings lease_at i [] bus = here
handle_each-Run context readings lease_at i (command ∷ commands) bus =
    let lease = lease_at (readings i).lease_now in
    let first = handle-Run context (readings i) lease command bus in
    let (handled, bus') = handle context (readings i) lease command bus in
    elim (Result-cases handled) [
      | inl (x, e) ↦ rw (e, handle_each) first
      | inr (result, e) ↦
          rw (e, handle_each)
            (Run-trans first (handle_each-Run context readings lease_at (i + 1) commands bus'))
    ]

-- A drain, also one that raises, changes the bus only by marks and audit events of the bus, so
-- that all that holds over the operations of the bus holds over drains.
pub drain-Run :
    (context : CommandContext) (budget : DeadlineBudget) (readings : ℕ → Readings) (now : ℕ)
    (s : Coordinator) (bus : Bus)
    → Run bus (drain context budget readings now (s, bus)).2
unfolding drain
drain-Run context budget readings now s bus = elim (Result-cases (pending context.tenant_id bus)) [
  | inl (x, e) ↦ rw (e, drain) here
  | inr ([], e) ↦ rw (e, drain) here
  | inr (command ∷ commands, e) ↦
      let (lease, s') = acquire_writer context.tenant_id context.generation budget now s in
      rw (e, drain)
        (elim (Result-cases lease) [
          | inl (x, l) ↦ rw (l, drain) here
          | inr (none, l) ↦ rw (l, drain) here
          | inr (some p, l) ↦
              rw (l, drain)
                (handle_each-Run context readings (λ time. lease_view p time s') 0
                  (command ∷ commands) bus)
        ])
]

-- Under active leases of the tenant, a command that was once answered as applied on a bus in use is
-- answered again without an exception, and never again as applied, whatever operations of the bus
-- come between.
pub applied_once :
    (context context' : CommandContext) (readings readings' : Readings) (lease lease' : LeaseView)
    (command : DirectorCommand) {bus later : Bus} {result : CommandResult}
    → Run empty_bus bus
    → lease.disposition ≡ active
    → lease.tenant_id ≡ context.tenant_id
    → (handle context readings lease command bus).0 ≡ ok result
    → result.disposition ≡ applied
    → Run (handle context readings lease command bus).1 later
    → lease'.disposition ≡ active
    → lease'.tenant_id ≡ context.tenant_id
    → context'.tenant_id ≡ context.tenant_id
    → (result' : CommandResult) × ((handle context' readings' lease' command later).0 ≡ ok result')
      × (result'.disposition ≢ applied)
applied_once context context' readings readings' lease lease' command {bus} {later} {result} start
      live own done how run live' own' same =
    let first = handle-Run context readings lease command bus in
    let among = Run-is_among context.tenant_id command run (
      handle-is_among context readings lease command bus {result = result} start live own done
        how) in
    let (result', again, exactly) =
      handle_lem context' readings' lease' command later (Run-trans (Run-trans start first) run)
        live' (own' ∙ sym same) in
    (
      result',
      again,
      λ e.
          ground
            (arith, exactly.0 e, ap (λ t. is_among command (later t).applied.entries) same, among),
    )

-- After a drain of a bus in use, also one that raises, every tenant's record of applied commands is
-- its own and holds no command id and no idempotency key twice.
pub drain-IsRecord :
    (context : CommandContext) (budget : DeadlineBudget) (readings : ℕ → Readings) (now : ℕ)
    (s : Coordinator) (t : TenantId) {bus : Bus}
    → Run empty_bus bus
    → IsRecord t ((drain context budget readings now (s, bus)).2 t).applied
drain-IsRecord context budget readings now s t {bus} run =
    Run-IsRecord t (Run-trans run (drain-Run context budget readings now s bus))
