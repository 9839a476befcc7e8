-- ===== src/Alliance/CommandBus/Marks.antt =====
-- The applied records of the bus, over every interleaving of its operations.
use arena_hero_agent.Prelude.{
  ℕ, ◌≡◌, refl, ◌⊎◌, inl, inr, Bool, true, false, ◌&&◌, not, [], ◌∷◌, ◌++◌, if◌then◌else◌, str_eq,
  eq_iff, arith, Bool-cases,
}
use arena_hero_agent.Prelude.Dict.{mem_text}
use arena_hero_agent.Prelude.Sort.{has_duplicate, mem_text-append, has_duplicate-append}
use arena_hero_agent.Prelude.Exceptions.{ok}
use arena_hero_agent.Domain.ValueObjects.{TenantId, Generation}
use arena_hero_agent.Runtime.Leases.{active}
use arena_hero_agent.Runtime.StateStore.{LeaseView, is_active}
use arena_hero_agent.Alliance.Commands.{DirectorCommand, CommandAuditEvent}
use arena_hero_agent.Alliance.CommandBus.{
  AppliedEntry, AppliedRecord, Bus, empty_bus, applied_ids, applied_keys, is_among,
  record_tenant_fits, publish, is_applied, marked, mark_applied, record_event,
}

pub data Step (bus : Bus) : Bus → Type 0 where
  publishing : (command : DirectorCommand) → Step bus (publish command bus)
  marking :
      (t : TenantId) (command : DirectorCommand) (g : Generation) (tick : ℕ) (lease : LeaseView)
      → Step bus (mark_applied t command g tick lease bus).1
  auditing : (t : TenantId) (event : CommandAuditEvent) → Step bus (record_event t event bus).1

pub data Run (bus : Bus) : Bus → Type 0 where
  here : Run bus bus
  and_then : {later last : Bus} → Run bus later → Step later last → Run bus last

-- The record of a tenant's applied commands: its own, with no command id and no idempotency key
-- twice.
abbrev pub IsRecord : TenantId → AppliedRecord → Type 0
IsRecord t applied =
    (record_tenant_fits applied t ≡ true)
    × (has_duplicate (applied_ids applied.entries) ≡ false)
    × (has_duplicate (applied_keys applied.entries) ≡ false)

-- Where `mark_applied` writes.
abbrev marks : TenantId → DirectorCommand → LeaseView → Bus → Bool
marks t command lease bus =
    is_active lease.disposition
    && str_eq lease.tenant_id t
    && record_tenant_fits (bus t).applied t
    && not (is_among command (bus t).applied.entries)

mark_applied-files :
    (t u : TenantId) (command : DirectorCommand) (g : Generation) (tick : ℕ) (lease : LeaseView)
    (bus : Bus)
    → (mark_applied t command g tick lease bus).1 u
      ≡ (if marks t command lease bus && str_eq u t then marked t command g tick (bus t) else bus u)
unfolding mark_applied
mark_applied-files t u command g tick lease bus = ground arith

-- A step leaves a record as it is, or writes one more entry behind it.
Step-applied :
    (u : TenantId) {bus later : Bus}
    → Step bus later
    → ((later u).applied ≡ (bus u).applied)
      ⊎ ((e : AppliedEntry) × ((later u).applied
            ≡ record { tenant_id = u; entries = (bus u).applied.entries ++ e ∷ [] })
          × (mem_text e.command_id (applied_ids (bus u).applied.entries) ≡ false)
          × (mem_text e.idempotency_key (applied_keys (bus u).applied.entries) ≡ false))
unfolding publish mark_applied record_event is_among
Step-applied u (publishing command) = inl (ground (arith, eq_iff u command.tenant_id))
Step-applied u (auditing t event) = inl (ground (arith, eq_iff u t))
Step-applied u {bus} (marking t command g tick lease) =
    elim (Bool-cases (marks t command lease bus && str_eq u t)) [
      | inr other ↦ inl (rw (mark_applied-files t u command g tick lease bus, other) refl)
      | inl own ↦
          let same : u ≡ t = ground (arith, eq_iff u t) in
          inr (
            record {
              command_id = command.command_id;
              idempotency_key = command.idempotency_key;
              generation = g.value;
              applied_at_tick = tick;
            },
            rw (mark_applied-files t u command g tick lease bus, own, same) refl,
            rw same (ground arith),
            rw same (ground arith),
          )
    ]

Step-IsRecord :
    (u : TenantId) {bus later : Bus}
    → Step bus later
    → IsRecord u (bus u).applied
    → IsRecord u (later u).applied
Step-IsRecord u {bus} step h = elim (Step-applied u step) [
  | inl same ↦ rw same h
  | inr (e, grown, fresh_id, fresh_key) ↦ rw grown (
    ground (arith, eq_iff u u),
    ground (arith, has_duplicate-append (λ e. e.command_id) (bus u).applied.entries e),
    ground (arith, has_duplicate-append (λ e. e.idempotency_key) (bus u).applied.entries e),
  )
]

-- In every interleaving of publications, marks and audit events on an empty bus, a tenant's record
-- of applied commands is its own, and holds no command id and no idempotency key twice: no command
-- is marked as applied a second time.
pub Run-IsRecord : (t : TenantId) {bus : Bus} → Run empty_bus bus → IsRecord t (bus t).applied
unfolding has_duplicate
Run-IsRecord t here = (refl, refl, refl)
Run-IsRecord t (and_then run last) = Step-IsRecord t last (Run-IsRecord t run)

Step-is_among :
    (u : TenantId) (command : DirectorCommand) {bus later : Bus}
    → Step bus later
    → is_among command (bus u).applied.entries ≡ true
    → is_among command (later u).applied.entries ≡ true
unfolding is_among
Step-is_among u command {bus} step h = elim (Step-applied u step) [
  | inl same ↦ rw same h
  | inr (e, grown, _, _) ↦ rw grown (
      ground (
        arith,
        mem_text-append (λ e. e.command_id) command.command_id (bus u).applied.entries e,
        mem_text-append (λ e. e.idempotency_key) command.idempotency_key (bus u).applied.entries e,
      ))
]

pub Run-is_among :
    (u : TenantId) (command : DirectorCommand) {bus later : Bus}
    → Run bus later
    → is_among command (bus u).applied.entries ≡ true
    → is_among command (later u).applied.entries ≡ true
Run-is_among u command here h = h
Run-is_among u command (and_then run last) h =
    Step-is_among u command last (Run-is_among u command run h)

pub Run-trans : {bus later last : Bus} → Run bus later → Run later last → Run bus last
Run-trans run here = run
Run-trans run (and_then more step) = and_then (Run-trans run more) step

pub settled :
    (t : TenantId) (command : DirectorCommand) (g : Generation) (tick : ℕ) (lease : LeaseView)
    (marked_now : Bool) (bus : Bus)
    → (mark_applied t command g tick lease bus).0 ≡ ok marked_now
    → is_among command ((mark_applied t command g tick lease bus).1 t).applied.entries ≡ true
unfolding is_among mark_applied
settled t command g tick lease marked_now bus done =
    elim (Bool-cases (is_among command (bus t).applied.entries)) [
      | inl among ↦ rw (mark_applied-files t t command g tick lease bus) (ground arith)
      | inr fresh ↦ rw (mark_applied-files t t command g tick lease bus) (
          ground (
            arith,
            eq_iff t t,
            eq_iff command.command_id command.command_id,
            mem_text-append (λ e. e.command_id) command.command_id (bus t).applied.entries
                (record {
                  command_id = command.command_id;
                  idempotency_key = command.idempotency_key;
                  generation = g.value;
                  applied_at_tick = tick;
                }),
          ))
    ]

again :
    (t : TenantId) (command : DirectorCommand) (g : Generation) (tick : ℕ) (lease : LeaseView)
    (bus : Bus)
    → lease.disposition ≡ active
    → lease.tenant_id ≡ t
    → record_tenant_fits (bus t).applied t ≡ true
    → is_among command (bus t).applied.entries ≡ true
    → mark_applied t command g tick lease bus ≡ (ok false, bus)
unfolding mark_applied
again t command g tick lease bus live own fits among = ground (arith, eq_iff lease.tenant_id t)

-- On a bus in use, a call of `mark_applied` that returns, whether it marked the command or found it
-- marked, settles the command: whatever runs next, `is_applied` answers true, and another
-- `mark_applied` under an active lease of the tenant returns false and changes nothing.
pub mark_applied_settles :
    (t : TenantId) (command : DirectorCommand) (g g' : Generation) (tick tick' : ℕ)
    (lease lease' : LeaseView) (marked_now : Bool) {bus later : Bus}
    → Run empty_bus bus
    → (mark_applied t command g tick lease bus).0 ≡ ok marked_now
    → Run (mark_applied t command g tick lease bus).1 later
    → lease'.disposition ≡ active
    → lease'.tenant_id ≡ t
    → (is_applied t command later ≡ ok true)
      × (mark_applied t command g' tick' lease' later ≡ (ok false, later))
unfolding is_applied
mark_applied_settles t command g g' tick tick' lease lease' marked_now {bus} {later} start done run
      live own =
    let step : Step bus (mark_applied t command g tick lease bus).1 =
      marking t command g tick lease in
    let fits = (Run-IsRecord t (Run-trans (and_then start step) run)).0 in
    let among = Run-is_among t command run (settled t command g tick lease marked_now bus done) in
    (ground arith, again t command g' tick' lease' later live own fits among)
