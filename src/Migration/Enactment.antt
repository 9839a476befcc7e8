-- ===== src/Migration/Enactment.antt =====
-- migration/enactment.py: the gate before each move, and the fence of the conductor, which is the
-- tenant's writer lease of Runtime/Leases. A plan is here what the gates read of it.
pub mod Fence
mod Tests
use arena_hero_agent.Prelude.{
  ℕ, ◌*◌, Bool, true, false, ◌&&◌, Option, none, some, leb, ◌==◌, if◌then◌else◌, String, str_eq,
}
use arena_hero_agent.Prelude.Int.{ℤ, pos, ◌-ℤ◌, leb_ℤ}
use arena_hero_agent.Prelude.Exceptions.{Result}
use arena_hero_agent.Domain.ValueObjects.{
  TenantId, Generation, FencingToken, DeadlineBudget, supersedes,
}
use arena_hero_agent.Runtime.Leases.{Coordinator, disposition, acquire_writer, replace_writer}
use arena_hero_agent.Runtime.StateStore.{is_active}

pub record MigrationLease : Type 0 where
  pub until_tick : ℕ
  pub heartbeat_at : String

pub record MigrationPlan : Type 0 where
  pub tenant : TenantId
  pub conductor_epoch : ℕ
  pub origin_core_id : Option String
  pub current_core_id : Option String
  pub lease : MigrationLease

abbrev eq_text? : Option String → Option String → Bool
eq_text? none none = true
eq_text? (some s) (some t) = str_eq s t
eq_text? none (some _) = false
eq_text? (some _) none = false

abbrev pub conductor_epoch_matches : MigrationPlan → (expected_conductor_epoch : ℕ) → Bool
conductor_epoch_matches plan expected = plan.conductor_epoch == expected

pub core_generation_matches : MigrationPlan → (observed_core_id : Option String) → Bool
core_generation_matches plan observed = elim plan.origin_core_id [
  | none ↦ false
  | some origin ↦
      if eq_text? plan.current_core_id (some origin) then eq_text? observed (some origin) else false
]

-- `_parse_heartbeat` reads a text by the standard library; it is an argument here, and gives the
-- instant in microseconds, the resolution of datetime; `now` is in microseconds as well.
module _ (parse_heartbeat : String → Option ℤ) where
  pub lease_is_fresh :
      MigrationLease → (current_tick : ℕ) → (now : ℤ) → (heartbeat_ttl_seconds : ℕ) → Bool
  lease_is_fresh lease current_tick now ttl = elim (parse_heartbeat lease.heartbeat_at) [
    | none ↦ false
    | some heartbeat ↦
        leb current_tick lease.until_tick && leb_ℤ (now -ℤ heartbeat) (pos (ttl * 1000000))
  ]

  pub may_start_move :
      MigrationPlan
      → (current_tick : ℕ) → (now : ℤ) → (heartbeat_ttl_seconds expected_conductor_epoch : ℕ)
      → Option String
      → Bool
  unfolding lease_is_fresh core_generation_matches
  may_start_move plan current_tick now ttl expected_epoch observed_core_id =
      lease_is_fresh plan.lease current_tick now ttl
      && conductor_epoch_matches plan expected_epoch
      && core_generation_matches plan observed_core_id

-- A handle of the coordinator, read at a clock reading.
pub fence_holds_tenant : (p now : ℕ) → Coordinator → TenantId → Bool
unfolding disposition
fence_holds_tenant p now s tenant =
    is_active (disposition p now s) && str_eq (s.handles p).tenant_id tenant

pub fence_authorizes_plan : (p now : ℕ) → Coordinator → MigrationPlan → Bool
unfolding fence_holds_tenant
fence_authorizes_plan p now s plan =
    fence_holds_tenant p now s plan.tenant
    && (s.handles p).fencing_token.value == plan.conductor_epoch

pub acquire_conductor_fence :
    TenantId
    → Generation
    → DeadlineBudget
    → (now : ℕ) → Coordinator
    → Result (Option ℕ) × Coordinator
acquire_conductor_fence = acquire_writer

pub take_over_conductor_fence :
    TenantId
    → Generation
    → FencingToken
    → DeadlineBudget
    → (now now' : ℕ) → Coordinator
    → Result (Option ℕ) × Coordinator
unfolding replace_writer
take_over_conductor_fence = replace_writer

pub fence_is_monotonic : FencingToken → FencingToken → Bool
fence_is_monotonic previous current = supersedes current previous
