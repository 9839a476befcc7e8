-- ===== src/Alliance/Commands.antt =====
-- alliance/commands.py: the director's command envelope and its validation. Ticks are natural
-- numbers, since the constructors refuse negative ones; reasons are constructors for their texts.
use arena_hero_agent.Prelude.{
  ℕ, Bool, true, false, not, Option, none, some, List, leb, ◌==◌, if◌then◌else◌, String, str_eq,
}
use arena_hero_agent.Prelude.Int.{ℤ, pos, eq_ℤ}
use arena_hero_agent.Prelude.Exceptions.{Result, ok, value_error, ◌>>◌, raise_if}
use arena_hero_agent.Domain.ValueObjects.{TenantId, Generation, Coordinate}

abbrev pub command_schema_version : ℤ
command_schema_version = pos 1

pub data CommandIssuer : Type 0 where
  human director agent : CommandIssuer

pub data CommandDisposition : Type 0 where
  accepted applied rejected expired duplicate unauthorized : CommandDisposition

pub record CommandAction : Type 0 where
  pub kind : String
  pub target : Option Coordinate
  pub unit_ids : List String

-- `CommandAction.__post_init__`
pub command_action : CommandAction → Result CommandAction
command_action action = do raise_if (str_eq action.kind "") value_error; ok action

pub record DirectorCommand : Type 0 where
  pub schema_version : ℤ
  pub command_id : String
  pub tenant_id : TenantId
  pub issuer : CommandIssuer
  pub issued_at_tick : ℕ
  pub expires_at_tick : ℕ
  pub expected_generation : Generation
  pub idempotency_key : String
  pub action : CommandAction

-- `DirectorCommand.__post_init__`
pub director_command : DirectorCommand → Result DirectorCommand
director_command command = do
  raise_if (leb command.expires_at_tick command.issued_at_tick) value_error
  raise_if (str_eq command.idempotency_key "") value_error
  ok command

pub data Reason : Type 0 where
  unsupported_version another_tenant agent_issuer has_expired stale_generation : Reason
  already_applied : Reason

pub record CommandAuditEvent : Type 0 where
  pub command_id : String
  pub tenant_id : TenantId
  pub disposition : CommandDisposition
  pub reason : Option Reason
  pub generation : Generation
  pub tick : ℕ

pub record CommandResult : Type 0 where
  pub command : DirectorCommand
  pub disposition : CommandDisposition
  pub reason : Option Reason

abbrev pub is_agent : CommandIssuer → Bool
is_agent agent = true
is_agent human = false
is_agent director = false

pub validate_issuance : DirectorCommand → Option Reason
validate_issuance command =
    if not (eq_ℤ command.schema_version command_schema_version)
    then some unsupported_version
    else if is_agent command.issuer
    then some agent_issuer
    else none

unfoldable pub validate_command :
    DirectorCommand
    → TenantId
    → (current_generation : Generation) → (now : ℕ) → CommandDisposition × Option Reason
validate_command command tenant_id current_generation now =
    if not (eq_ℤ command.schema_version command_schema_version)
    then (rejected, some unsupported_version)
    else if not (str_eq command.tenant_id tenant_id)
    then (rejected, some another_tenant)
    else if is_agent command.issuer
    then (unauthorized, some agent_issuer)
    else if leb command.expires_at_tick now
    then (expired, some has_expired)
    else if not (command.expected_generation.value == current_generation.value)
    then (rejected, some stale_generation)
    else (accepted, none)
