-- ===== src/Alliance/Applier/Tests.antt =====
-- A drain on a small ledger, and the theorems at it.
use arena_hero_agent.Prelude.{
  ◌≡◌, ◌≢◌, refl, ◌↔◌, true, ◌&&◌, not, none, some, List, [], ◌∷◌, leb, String,
}
use arena_hero_agent.Prelude.Int.{pos}
use arena_hero_agent.Prelude.Exceptions.{ok}
use arena_hero_agent.Domain.ValueObjects.{Generation, DeadlineBudget}
use arena_hero_agent.Runtime.Leases.{Coordinator, no_handle, active, disposition}
use arena_hero_agent.Runtime.StateStore.{LeaseView}
use arena_hero_agent.Alliance.Commands.{
  CommandAuditEvent, DirectorCommand, CommandResult, human, applied, duplicate, already_applied,
}
use arena_hero_agent.Alliance.CommandBus.{
  Bus, empty_bus, put_files, publish, pending, is_among, decoded, read_audit,
}
use arena_hero_agent.Alliance.CommandBus.Marks.{
  Run, here, and_then, publishing, IsRecord, Run-IsRecord,
}
use arena_hero_agent.Alliance.Applier.{CommandContext, Readings, handle, drain}
use arena_hero_agent.Alliance.Applier.Handle.{is_current_command, handle_lem}
use arena_hero_agent.Alliance.Applier.Drain.{applied_once}

abbrev gen : Generation
gen = record { value = 3 }

abbrev command : String → String → DirectorCommand
command id key = record {
  schema_version = pos 1;
  command_id = id;
  tenant_id = "a";
  issuer = human;
  issued_at_tick = 5;
  expires_at_tick = 20;
  expected_generation = gen;
  idempotency_key = key;
  action = record { kind = "raid"; target = none; unit_ids = [] };
}

abbrev context : CommandContext
context = record { tenant_id = "a"; generation = gen }

abbrev readings : Readings
readings = record { observed = 8; fresh = 9; late = 9; lease_now = 2 }

abbrev lease : LeaseView
lease = record { tenant_id = "a"; generation = gen; disposition = active }

abbrev coordinator : Coordinator
coordinator = record {
  lease_duration_ns = 10;
  slots = λ k t. none;
  next_handle = 0;
  handles = λ p. no_handle;
}

abbrev budget : DeadlineBudget
budget = record { nanoseconds = 5 }

-- Two commands, the second with the idempotency key of the first.
abbrev ledger : Bus
ledger = publish (command "c2" "k") (publish (command "c1" "k") empty_bus)

drained :
    ((drain context budget (λ i. readings) 1 (coordinator, ledger)).0
      ≡ ok (
          record { command = command "c1" "k"; disposition = applied; reason = none }
          ∷ record {
            command = command "c2" "k";
            disposition = duplicate;
            reason = some already_applied;
          }
          ∷ []))
    × (pending "a" (drain context budget (λ i. readings) 1 (coordinator, ledger)).2 ≡ ok [])
unfolding drain publish disposition
drained = (refl, refl)

ledger-Run : Run empty_bus ledger
ledger-Run =
    and_then (and_then here (publishing (command "c1" "k"))) (publishing (command "c2" "k"))

abbrev after : Bus
after = (handle context readings lease (command "c1" "k") ledger).1

abbrev first_result : CommandResult
first_result = record { command = command "c1" "k"; disposition = applied; reason = none }

handle_lem_example :
    (result : CommandResult) × ((handle context readings lease (command "c1" "k") ledger).0
      ≡ ok result)
    × ((result.disposition ≡ applied) ↔ (
        (is_current_command (command "c1" "k") "a" gen 8
          && not (leb 20 9)
          && not (is_among (command "c1" "k") (ledger "a").applied.entries))
        ≡ true))
handle_lem_example =
    handle_lem context readings lease (command "c1" "k") ledger ledger-Run refl refl

applied_once_example :
    (result : CommandResult) × ((handle context readings lease (command "c1" "k") after).0
      ≡ ok result)
    × (result.disposition ≢ applied)
unfolding handle publish
applied_once_example =
    applied_once context context readings readings lease lease (command "c1" "k") {bus = ledger}
      {later = after} {result = first_result} ledger-Run refl refl refl refl here refl refl refl

Run-IsRecord_example : IsRecord "a" (ledger "a").applied
Run-IsRecord_example = Run-IsRecord "a" ledger-Run

abbrev event : String → String → CommandAuditEvent
event tenant id = record {
  command_id = id;
  tenant_id = tenant;
  disposition = applied;
  reason = none;
  generation = gen;
  tick = 7;
}

-- A trail whose last line does not decode.
abbrev garbled : Bus
garbled =
    put_files "a" (record (empty_bus "a") { audit = some (event "a" "old") ∷ none ∷ [] }) empty_bus

abbrev news : List CommandAuditEvent
news = event "a" "c1" ∷ event "a" "c2" ∷ []

-- The garbled line uses up the limit.
garbled_line_counts :
    (read_audit "a" (pos 1) garbled ≡ []) × (read_audit "a" (pos 2) garbled ≡ event "a" "old" ∷ [])
unfolding read_audit decoded
garbled_line_counts = (refl, refl)
