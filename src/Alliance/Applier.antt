-- ===== src/Alliance/Applier.antt =====
-- alliance/applier.py: a tenant drains its pending commands under one writer lease. The ticks that
-- `now` returns and the clock readings are arguments, in the order of the calls; between the steps
-- of one drain nothing else writes to the bus.
pub mod Handle
pub mod Drain
mod Tests
use arena_hero_agent.Prelude.{
  ℕ, ◌+◌, Bool, true, false, Option, none, some, List, [], ◌∷◌, leb, if◌then◌else◌,
}
use arena_hero_agent.Prelude.Exceptions.{Result, ok, raise, command_bus_error, ◌>>=◌, ◌>>◌}
use arena_hero_agent.Domain.ValueObjects.{TenantId, Generation, DeadlineBudget}
use arena_hero_agent.Runtime.Leases.{Coordinator, acquire_writer, release}
use arena_hero_agent.Runtime.StateStore.{LeaseView, lease_view}
use arena_hero_agent.Alliance.Commands.{
  DirectorCommand, CommandDisposition, accepted, applied, rejected, expired, duplicate,
  unauthorized, Reason, has_expired, already_applied, CommandAuditEvent, CommandResult,
  validate_command,
}
use arena_hero_agent.Alliance.CommandBus.{Bus, pending, is_applied, mark_applied, record_event}

pub record CommandContext : Type 0 where
  pub tenant_id : TenantId
  pub generation : Generation

-- What the clocks say while one command is handled: the tick of the first checks, the fresh tick,
-- the tick of a duplicate's audit event, and the time at which the lease is read.
pub record Readings : Type 0 where
  pub observed : ℕ
  pub fresh : ℕ
  pub late : ℕ
  pub lease_now : ℕ

abbrev pub is_accepted : CommandDisposition → Bool
is_accepted accepted = true
is_accepted applied = false
is_accepted rejected = false
is_accepted expired = false
is_accepted duplicate = false
is_accepted unauthorized = false

-- `_record`, and then the result that `_handle` returns
pub answer :
    CommandContext
    → DirectorCommand
    → CommandDisposition
    → Option Reason
    → (tick : ℕ) → Bus
    → Result CommandResult × Bus
unfolding record_event
answer context command disposition reason tick bus =
    let event : CommandAuditEvent = record {
      command_id = command.command_id;
      tenant_id = context.tenant_id;
      disposition = disposition;
      reason = reason;
      generation = context.generation;
      tick = tick;
    } in
    let (recorded, bus') = record_event context.tenant_id event bus in
    (
      recorded >> ok (record { command = command; disposition = disposition; reason = reason }),
      bus',
    )

-- `_duplicate`
abbrev pub answer_duplicate :
    CommandContext → DirectorCommand → (tick : ℕ) → Bus → Result CommandResult × Bus
answer_duplicate context command tick bus =
    answer context command duplicate (some already_applied) tick bus

-- `_handle` from the fresh tick on
pub apply_fresh :
    CommandContext → Readings → LeaseView → DirectorCommand → Bus → Result CommandResult × Bus
unfolding answer is_applied mark_applied
apply_fresh context readings lease command bus = elim (leb command.expires_at_tick readings.fresh) [
  | true ↦ answer context command expired (some has_expired) readings.fresh bus
  | false ↦ elim (is_applied context.tenant_id command bus) [
    | raise e ↦ (raise e, bus)
    | ok true ↦ answer_duplicate context command readings.late bus
    | ok false ↦
        let (marked, bus') =
          mark_applied context.tenant_id command context.generation readings.fresh lease bus in
        elim marked [
          | raise e ↦ (raise e, bus')
          | ok false ↦ answer_duplicate context command readings.late bus'
          | ok true ↦ answer context command applied none readings.fresh bus'
        ]
  ]
]

-- `_handle`
unfoldable pub handle :
    CommandContext → Readings → LeaseView → DirectorCommand → Bus → Result CommandResult × Bus
unfolding validate_command answer is_applied apply_fresh
handle context readings lease command bus =
    let (disposition, reason) =
      validate_command command context.tenant_id context.generation readings.observed in
    elim (is_accepted disposition) [
      | false ↦ answer context command disposition reason readings.observed bus
      | true ↦ elim (is_applied context.tenant_id command bus) [
        | raise e ↦ (raise e, bus)
        | ok true ↦ answer_duplicate context command readings.late bus
        | ok false ↦ apply_fresh context readings lease command bus
      ]
    ]

-- `[await self._handle(command, context, lease) for command in pending]`
pub handle_each :
    CommandContext
    → (readings : ℕ → Readings) → (lease_at : ℕ → LeaseView) → (i : ℕ) → List DirectorCommand
    → Bus
    → Result (List CommandResult) × Bus
unfolding handle
handle_each context readings lease_at i [] bus = (ok [], bus)
handle_each context readings lease_at i (command ∷ commands) bus =
    let (handled, bus') =
      handle context (readings i) (lease_at (readings i).lease_now) command bus in
    let (others, last) = handle_each context readings lease_at (i + 1) commands bus' in
    elim handled [
      | raise e ↦ (raise e, bus')
      | ok result ↦ (others >>= λ results. ok (result ∷ results), last)
    ]

-- `drain`, with the state of the lease coordinator and of the bus
unfoldable pub drain :
    CommandContext
    → DeadlineBudget
    → (readings : ℕ → Readings) → (now : ℕ) → Coordinator × Bus
    → Result (List CommandResult) × Coordinator × Bus
unfolding pending acquire_writer release handle_each
drain context budget readings now (s, bus) = elim (pending context.tenant_id bus) [
  | raise e ↦ (raise e, s, bus)
  | ok [] ↦ (ok [], s, bus)
  | ok (command ∷ commands) ↦
      let (lease, s') = acquire_writer context.tenant_id context.generation budget now s in
      elim lease [
        | raise e ↦ (raise e, s', bus)
        | ok none ↦ (raise command_bus_error, s', bus)
        | ok (some p) ↦
            let (results, bus') =
              handle_each context readings (λ time. lease_view p time s') 0 (command ∷ commands)
                bus in
            let (released, s'') = release p s' in (released >> results, s'', bus')
      ]
]
