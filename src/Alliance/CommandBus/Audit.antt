-- ===== src/Alliance/CommandBus/Audit.antt =====
-- adapters/runtime/command_bus.py: what is read back of the audit events that are recorded.
use arena_hero_agent.Prelude.{◌≡◌, ◌≢◌, some, List, [], ◌∷◌, ◌++◌, map}
use arena_hero_agent.Prelude.Exceptions.{Result, ok, raise}
use arena_hero_agent.Domain.ValueObjects.{TenantId}
use arena_hero_agent.Alliance.Commands.{CommandAuditEvent}
use arena_hero_agent.Alliance.CommandBus.{Bus, put_files, record_event}

-- Events recorded one after the other, up to the first that raises.
abbrev pub record_each : TenantId → List CommandAuditEvent → Bus → Result (Unit {0}) × Bus
record_each t [] bus = (ok tt, bus)
record_each t (event ∷ events) bus =
    let (outcome, bus') = record_event t event bus in
    elim outcome [ ok _ ↦ record_each t events bus' | raise e ↦ (raise e, bus') ]

abbrev logged : TenantId → CommandAuditEvent → Bus → Bus
logged t event bus = put_files t (record (bus t) { audit = (bus t).audit ++ some event ∷ [] }) bus

-- A trail that has grown by a line for each event, with nothing else changed.
abbrev Grows : TenantId → List CommandAuditEvent → Bus → Result (Unit {0}) × Bus → Type 0
Grows t events bus (outcome, after) =
    (outcome ≡ ok tt)
    × ((after t).audit ≡ (bus t).audit ++ map (λ e. some e) events)
    × ((u : TenantId) → u ≢ t → after u ≡ bus u)
