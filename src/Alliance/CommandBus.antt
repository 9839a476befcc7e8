-- ===== src/Alliance/CommandBus.antt =====
-- adapters/runtime/command_bus.py: for each tenant a ledger of commands, the record of applied
-- ones, and the audit trail. The files are lists of what their lines decode to, blank lines aside:
-- all lines of a ledger decode, those of an audit trail may fail to. A file ends with a newline when
-- a line is appended, and writes to disk succeed.
pub mod Marks
pub mod Pending
pub mod Audit
use arena_hero_agent.Prelude.{
  ℕ, ◌-◌, ◌==◌, Bool, true, false, ◌||◌, ◌&&◌, not, Option, none, some, List, [], ◌∷◌, ◌++◌, map,
  length, drop, if◌then◌else◌, String, str_eq,
}
use arena_hero_agent.Prelude.Int.{ℤ, pos, negsuc}
use arena_hero_agent.Prelude.Dict.{mem_text}
use arena_hero_agent.Prelude.Exceptions.{
  Result, ok, raise, value_error, command_bus_error, ◌>>=◌, ◌>>◌, raise_if,
}
use arena_hero_agent.Domain.ValueObjects.{TenantId, Generation}
use arena_hero_agent.Runtime.StateStore.{LeaseView, is_active}
use arena_hero_agent.Alliance.Commands.{DirectorCommand, CommandAuditEvent}

pub record AppliedEntry : Type 0 where
  pub command_id : String
  pub idempotency_key : String
  pub generation : ℕ
  pub applied_at_tick : ℕ

-- The record of a missing file has the empty tenant id.
pub record AppliedRecord : Type 0 where
  pub tenant_id : String
  pub entries : List AppliedEntry

-- A line of the audit trail that does not decode, like a torn one, is `none`.
pub record TenantFiles : Type 0 where
  pub commands : List DirectorCommand
  pub applied : AppliedRecord
  pub audit : List (Option CommandAuditEvent)

abbrev pub Bus : Type 0
Bus = TenantId → TenantFiles

abbrev pub empty_bus : Bus
empty_bus t = record {
  commands = [];
  applied = record { tenant_id = ""; entries = [] };
  audit = [];
}

abbrev pub put_files : TenantId → TenantFiles → Bus → Bus
put_files t files bus u = if str_eq u t then files else bus u

abbrev pub applied_ids : List AppliedEntry → List String
applied_ids entries = map (λ e. e.command_id) entries

abbrev pub applied_keys : List AppliedEntry → List String
applied_keys entries = map (λ e. e.idempotency_key) entries

-- `command.command_id.value in applied_ids or command.idempotency_key in applied_keys`
unfoldable pub is_among : DirectorCommand → List AppliedEntry → Bool
unfolding mem_text
is_among command entries =
    mem_text command.command_id (applied_ids entries)
    || mem_text command.idempotency_key (applied_keys entries)

-- `_require_record_tenant`
abbrev pub record_tenant_fits : AppliedRecord → TenantId → Bool
record_tenant_fits applied tenant_id =
    str_eq applied.tenant_id "" || str_eq applied.tenant_id tenant_id

unfoldable pub publish : DirectorCommand → Bus → Bus
publish command bus =
    let files = bus command.tenant_id in
    put_files command.tenant_id (record files { commands = files.commands ++ command ∷ [] }) bus

pub not_applied : List DirectorCommand → List AppliedEntry → List DirectorCommand
unfolding is_among
not_applied [] entries = []
not_applied (command ∷ commands) entries =
    let rest = not_applied commands entries in
    if is_among command entries then rest else command ∷ rest

-- `_pending`, which `pending` and `receive` return
unfoldable pub pending : TenantId → Bus → Result (List DirectorCommand)
unfolding not_applied
pending tenant_id bus = do
  let files = bus tenant_id
  raise_if (not (record_tenant_fits files.applied tenant_id)) command_bus_error
  ok (not_applied files.commands files.applied.entries)

unfoldable pub is_applied : TenantId → DirectorCommand → Bus → Result Bool
unfolding is_among
is_applied tenant_id command bus = do
  raise_if (not (record_tenant_fits (bus tenant_id).applied tenant_id)) command_bus_error
  ok (is_among command (bus tenant_id).applied.entries)

-- The entry that `mark_applied` writes, behind the others.
abbrev pub marked : TenantId → DirectorCommand → Generation → ℕ → TenantFiles → TenantFiles
marked tenant_id command generation applied_at_tick files = record files {
  applied = record {
    tenant_id = tenant_id;
    entries =
        files.applied.entries
        ++ record {
          command_id = command.command_id;
          idempotency_key = command.idempotency_key;
          generation = generation.value;
          applied_at_tick = applied_at_tick;
        }
          ∷ [];
  };
}

unfoldable pub mark_applied :
    TenantId
    → DirectorCommand
    → Generation
    → (applied_at_tick : ℕ) → LeaseView
    → Bus
    → Result Bool × Bus
unfolding is_among
mark_applied tenant_id command generation applied_at_tick lease bus =
    let files = bus tenant_id in
    if not (is_active lease.disposition)
    then (raise command_bus_error, bus)
    else if not (str_eq lease.tenant_id tenant_id)
    then (raise command_bus_error, bus)
    else if not (record_tenant_fits files.applied tenant_id)
    then (raise command_bus_error, bus)
    else if is_among command files.applied.entries
    then (ok false, bus)
    else (
      ok true,
      put_files tenant_id (marked tenant_id command generation applied_at_tick files) bus,
    )

-- `record`
unfoldable pub record_event : TenantId → CommandAuditEvent → Bus → Result (Unit {0}) × Bus
record_event tenant_id event bus =
    let files = bus tenant_id in
    if not (str_eq event.tenant_id tenant_id)
    then (raise command_bus_error, bus)
    else (ok tt, put_files tenant_id (record files { audit = files.audit ++ some event ∷ [] }) bus)

-- `lines[-limit:]`: Python reads `lines[-0:]` as `lines[0:]`.
abbrev pub trailing {ℓ} : {A : Type ℓ} → ℕ → List A → List A
trailing limit lines = drop (if limit == 0 then 0 else length lines - limit) lines

-- The loop of `read_audit`, which skips the lines that do not decode.
unfoldable pub decoded : List (Option CommandAuditEvent) → List CommandAuditEvent
decoded [] = []
decoded (none ∷ lines) = decoded lines
decoded (some event ∷ lines) = event ∷ decoded lines

unfoldable pub read_audit : TenantId → (limit : ℤ) → Bus → List CommandAuditEvent
read_audit tenant_id (pos limit) bus = decoded (trailing limit (bus tenant_id).audit)
read_audit tenant_id (negsuc n) bus = decoded (bus tenant_id).audit
