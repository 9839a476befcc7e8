-- ===== src/Migration/Enactment/Tests.antt =====
-- The gate and the fence on small inputs, and the theorem at them.
use arena_hero_agent.Prelude.{ℕ, ◌≡◌, refl, true, false, none, some, Option, String}
use arena_hero_agent.Prelude.Int.{ℤ, pos, ◌-ℤ◌}
use arena_hero_agent.Domain.ValueObjects.{Generation, FencingToken, DeadlineBudget}
use arena_hero_agent.Runtime.Leases.{Coordinator, no_handle, new_coordinator, acquire_writer}
use arena_hero_agent.Runtime.Leases.Invariant.{IsValid, new_coordinator-IsValid}
use arena_hero_agent.Runtime.Leases.Run.{here, next, acquiring_writer, Reach-IsValid}
use arena_hero_agent.Migration.Enactment.{
  MigrationPlan, may_start_move, fence_authorizes_plan, take_over_conductor_fence,
  fence_is_monotonic,
}
use arena_hero_agent.Migration.Enactment.Fence.{takeover_fences_out}

abbrev start : Coordinator
start = record {
  lease_duration_ns = 10;
  slots = λ k t. none;
  next_handle = 0;
  handles = λ p. no_handle;
}

abbrev gen : Generation
gen = record { value = 0 }

abbrev budget : DeadlineBudget
budget = record { nanoseconds = 5 }

abbrev token : ℕ → FencingToken
token n = record { value = n }

abbrev held : Coordinator
held = (acquire_writer "a" gen budget 100 start).1

abbrev taken_over : Coordinator
taken_over = (take_over_conductor_fence "a" gen (token 1) budget 110 110 held).1

abbrev a_plan : MigrationPlan
a_plan = record {
  tenant = "a";
  conductor_epoch = 1;
  origin_core_id = some "core";
  current_core_id = some "core";
  lease = record { until_tick = 50; heartbeat_at = "t" };
}

abbrev parse : String → Option ℤ
parse text = some (pos 1000500000)

gates :
    (may_start_move parse a_plan 50 (pos 1060500000) 60 1 (some "core") ≡ true)
    × (may_start_move parse a_plan 51 (pos 1060500000) 60 1 (some "core") ≡ false)
    × (may_start_move parse a_plan 50 (pos 1060500001) 60 1 (some "core") ≡ false)
    × (may_start_move parse a_plan 50 (pos 1060500000) 60 1 (some "other") ≡ false)
    × (fence_authorizes_plan 0 105 held a_plan ≡ true)
    × (fence_authorizes_plan 0 111 taken_over a_plan ≡ false)
unfolding may_start_move fence_authorizes_plan acquire_writer take_over_conductor_fence ◌-ℤ◌
gates = (refl, refl, refl, refl, refl, refl)

held-IsValid : IsValid held
unfolding new_coordinator
held-IsValid =
    Reach-IsValid (next here (acquiring_writer "a" gen budget 100))
      (new_coordinator-IsValid 10 start refl)

takeover_fences_out_example :
    (fence_authorizes_plan 0 111 taken_over a_plan ≡ false)
    × (fence_is_monotonic (token 1) (token 2) ≡ true)
    × (may_start_move parse a_plan 50 (pos 1060500000) 60 2 (some "core") ≡ false)
unfolding acquire_writer take_over_conductor_fence
takeover_fences_out_example =
    takeover_fences_out "a" gen (token 1) budget 110 110 held 0 1 parse 111 50 60 (pos 1060500000)
      a_plan a_plan (some "core") held-IsValid refl refl refl
