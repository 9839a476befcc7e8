-- ===== src/Alliance/Applier/Handle.antt =====
-- When a command is applied.
use arena_hero_agent.Prelude.{
  ℕ, ◌≡◌, ap, ◌↔◌, Bool, true, false, ◌&&◌, not, none, some, Option, ◌==◌, leb, if◌then◌else◌,
  str_eq, eq_iff, arith,
}
use arena_hero_agent.Prelude.Int.{eq_ℤ}
use arena_hero_agent.Prelude.Exceptions.{ok}
use arena_hero_agent.Domain.ValueObjects.{TenantId, Generation}
use arena_hero_agent.Runtime.Leases.{active}
use arena_hero_agent.Runtime.StateStore.{LeaseView}
use arena_hero_agent.Alliance.Commands.{
  DirectorCommand, CommandDisposition, CommandResult, accepted, applied, duplicate, expired, Reason,
  has_expired, already_applied, is_agent, command_schema_version, validate_command,
}
use arena_hero_agent.Alliance.CommandBus.{
  Bus, empty_bus, is_among, is_applied, mark_applied, record_event, record_tenant_fits,
}
use arena_hero_agent.Alliance.CommandBus.Marks.{Run, settled, Run-IsRecord}
use arena_hero_agent.Alliance.Applier.{
  CommandContext, Readings, is_accepted, answer, apply_fresh, handle,
}

-- Whether a command names the tenant and its generation, in the supported version, from an issuer
-- that may command, before a tick at which it expires.
abbrev pub is_current_command : DirectorCommand → TenantId → Generation → ℕ → Bool
is_current_command command t g now =
    eq_ℤ command.schema_version command_schema_version
    && str_eq command.tenant_id t
    && not (is_agent command.issuer)
    && not (leb command.expires_at_tick now)
    && command.expected_generation.value == g.value

-- A command is accepted exactly if it has the supported version, targets the tenant, does not come
-- from an agent, has not expired and expects the current generation.
pub validate_command_lem :
    (command : DirectorCommand) (t : TenantId) (g : Generation) (now : ℕ)
    → ((validate_command command t g now).0 ≡ accepted)
      ↔ (is_current_command command t g now ≡ true)
unfolding validate_command
validate_command_lem command t g now = (λ e. ground arith, λ e. ground arith)

answer_lem :
    (context : CommandContext) (command : DirectorCommand) (d : CommandDisposition)
    (reason : Option Reason) (tick : ℕ) (bus : Bus)
    → (answer context command d reason tick bus).0
      ≡ ok (record { command = command; disposition = d; reason = reason })
unfolding answer record_event
answer_lem context command d reason tick bus =
    ground (arith, eq_iff context.tenant_id context.tenant_id)

-- How a command is answered.
abbrev verdict :
    CommandContext → Readings → DirectorCommand → Bus → CommandDisposition × Option Reason
verdict context readings command bus =
    let checked = validate_command command context.tenant_id context.generation readings.observed in
    if not (is_accepted checked.0)
    then checked
    else if is_among command (bus context.tenant_id).applied.entries
    then (duplicate, some already_applied)
    else if leb command.expires_at_tick readings.fresh
    then (expired, some has_expired)
    else (applied, none)

mark_applied-fresh :
    (t : TenantId) (command : DirectorCommand) (g : Generation) (tick : ℕ) (lease : LeaseView)
    (bus : Bus)
    → lease.disposition ≡ active
    → lease.tenant_id ≡ t
    → record_tenant_fits (bus t).applied t ≡ true
    → is_among command (bus t).applied.entries ≡ false
    → (mark_applied t command g tick lease bus).0 ≡ ok true
unfolding mark_applied
mark_applied-fresh t command g tick lease bus live own fits fresh =
    ground (arith, eq_iff lease.tenant_id t)

is_applied_lem :
    (t : TenantId) (command : DirectorCommand) (bus : Bus)
    → record_tenant_fits (bus t).applied t ≡ true
    → is_applied t command bus ≡ ok (is_among command (bus t).applied.entries)
unfolding is_applied
is_applied_lem t command bus fits = ground arith

handle-verdict :
    (context : CommandContext) (readings : Readings) (lease : LeaseView) (command : DirectorCommand)
    (bus : Bus)
    → lease.disposition ≡ active
    → lease.tenant_id ≡ context.tenant_id
    → record_tenant_fits (bus context.tenant_id).applied context.tenant_id ≡ true
    → let (d, reason) = verdict context readings command bus in
      (handle context readings lease command bus).0
      ≡ ok (record { command = command; disposition = d; reason = reason })
unfolding handle apply_fresh
handle-verdict context readings lease command bus live own fits =
    let t = context.tenant_id in
    let checked = validate_command command t context.generation readings.observed in
    let marked = mark_applied t command context.generation readings.fresh lease bus in
    ground (
      arith,
      is_applied_lem t command bus fits,
      mark_applied-fresh t command context.generation readings.fresh lease bus live own fits,
      answer_lem context command checked.0 checked.1 readings.observed bus,
      answer_lem context command duplicate (some already_applied) readings.late bus,
      answer_lem context command expired (some has_expired) readings.fresh bus,
      answer_lem context command applied none readings.fresh marked.1,
    )

-- On a bus in use, with an active lease of the tenant, a command is handled without an exception,
-- and it is applied exactly if it is acceptable at the first tick, has not expired at the fresh one,
-- and neither its id nor its idempotency key is in the record.
pub handle_lem :
    (context : CommandContext) (readings : Readings) (lease : LeaseView) (command : DirectorCommand)
    (bus : Bus)
    → Run empty_bus bus
    → lease.disposition ≡ active
    → lease.tenant_id ≡ context.tenant_id
    → (result : CommandResult) × ((handle context readings lease command bus).0 ≡ ok result)
      × ((result.disposition ≡ applied) ↔ (
          (is_current_command command context.tenant_id context.generation readings.observed
            && not (leb command.expires_at_tick readings.fresh)
            && not (is_among command (bus context.tenant_id).applied.entries))
          ≡ true))
unfolding validate_command
handle_lem context readings lease command bus run live own =
    let (d, reason) = verdict context readings command bus in
    (
      record { command = command; disposition = d; reason = reason },
      handle-verdict context readings lease command bus live own
          (Run-IsRecord context.tenant_id run).0,
      (λ e. ground arith, λ e. ground arith),
    )

answer-applied :
    (context : CommandContext) (command : DirectorCommand) (d : CommandDisposition)
    (reason : Option Reason) (tick : ℕ) (t : TenantId) (bus : Bus)
    → ((answer context command d reason tick bus).1 t).applied ≡ (bus t).applied
unfolding answer record_event
answer-applied context command d reason tick t bus =
    ground (arith, eq_iff t context.tenant_id, ap bus {x = t} {y = context.tenant_id})

-- A command that is answered as applied is in the record afterwards.
pub handle-is_among :
    (context : CommandContext) (readings : Readings) (lease : LeaseView) (command : DirectorCommand)
    (bus : Bus) {result : CommandResult}
    → Run empty_bus bus
    → lease.disposition ≡ active
    → lease.tenant_id ≡ context.tenant_id
    → (handle context readings lease command bus).0 ≡ ok result
    → result.disposition ≡ applied
    → is_among command
        ((handle context readings lease command bus).1 context.tenant_id).applied.entries
      ≡ true
unfolding handle apply_fresh validate_command
handle-is_among context readings lease command bus {result} run live own done how =
    let t = context.tenant_id in
    let fits = (Run-IsRecord t run).0 in
    let marked = mark_applied t command context.generation readings.fresh lease bus in
    ground (
      arith,
      handle-verdict context readings lease command bus live own fits,
      is_applied_lem t command bus fits,
      mark_applied-fresh t command context.generation readings.fresh lease bus live own fits,
      settled t command context.generation readings.fresh lease true bus,
      ap (λ applied. is_among command applied.entries)
          (answer-applied context command applied none readings.fresh t marked.1),
    )
