-- ===== src/Migration/Enactment/Fence.antt =====
-- What a takeover of the conductor's fence does to plans.
use arena_hero_agent.Prelude.{ℕ, ◌≡◌, true, false, none, some, Option, String, arith}
use arena_hero_agent.Prelude.Int.{ℤ}
use arena_hero_agent.Prelude.Exceptions.{ok}
use arena_hero_agent.Domain.ValueObjects.{TenantId, Generation, FencingToken, DeadlineBudget}
use arena_hero_agent.Runtime.Leases.{Coordinator, writer, replace_writer}
use arena_hero_agent.Runtime.Leases.Invariant.{IsValid}
use arena_hero_agent.Runtime.Leases.Lifecycle.{holder, replace-supersedes}
use arena_hero_agent.Migration.Enactment.{
  MigrationPlan, may_start_move, fence_authorizes_plan, fence_holds_tenant,
  take_over_conductor_fence, fence_is_monotonic,
}

module _ (t : TenantId) (g : Generation) (x : FencingToken) (b : DeadlineBudget) (now now' : ℕ)
    (s : Coordinator) (p q : ℕ) where
  -- After a takeover that a valid coordinator grants, the old conductor's handle authorizes no plan,
  -- whatever its epoch, at any later reading of the clock; the new handle's token supersedes the old
  -- one's; and a plan of the old epoch may not start a move under the new epoch.
  pub takeover_fences_out :
      (parse_heartbeat : String → Option ℤ) (later current_tick ttl : ℕ) (time : ℤ)
      (plan old_plan : MigrationPlan) (observed : Option String)
      → IsValid s
      → holder writer t s ≡ some p
      → (take_over_conductor_fence t g x b now now' s).0 ≡ ok (some q)
      → let s' = (take_over_conductor_fence t g x b now now' s).1 in
        old_plan.conductor_epoch ≡ (s'.handles p).fencing_token.value
        → (fence_authorizes_plan p later s' plan ≡ false)
          × (fence_is_monotonic (s'.handles p).fencing_token (s'.handles q).fencing_token ≡ true)
          × (may_start_move parse_heartbeat old_plan current_tick time ttl
                (s'.handles q).fencing_token.value
                observed
              ≡ false)
  unfolding take_over_conductor_fence fence_authorizes_plan fence_holds_tenant may_start_move
      fence_is_monotonic replace_writer
  takeover_fences_out parse_heartbeat later current_tick ttl time plan old_plan observed v held
        granted old =
      let (gone, _, _, newer) =
        replace-supersedes writer t g none x b now now' later s p q v held granted in
      (ground (arith, gone), newer, ground (arith, newer))
