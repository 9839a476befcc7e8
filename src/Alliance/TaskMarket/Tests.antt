-- ===== src/Alliance/TaskMarket/Tests.antt =====
-- The market on a small offer, and the theorems at it.
use mathlib.Core.List.{Perm}
use arena_hero_agent.Prelude.{
  ℕ, ◌+◌, ◌≤◌, ◌<◌, ◌≡◌, refl, ◌⊎◌, inl, inr, true, false, ◌&&◌, ◌||◌, none, some, List, [], ◌∷◌,
  String,
}
use arena_hero_agent.Prelude.Dict.{mem_text}
use arena_hero_agent.Prelude.Sort.{has_duplicate}
use arena_hero_agent.Prelude.Exceptions.{ok, raise, value_error}
use arena_hero_agent.Alliance.TaskMarket.{
  MarketTask, TenantCapacity, AssignmentResult, no_eligible_with_capacity, required_not_on_market,
  market_task, assign_tasks,
}
use arena_hero_agent.Alliance.TaskMarket.Choose.{admits}
use arena_hero_agent.Alliance.TaskMarket.Partition.{task_ids}
use arena_hero_agent.Alliance.TaskMarket.Load.{load}
use arena_hero_agent.Alliance.TaskMarket.Table.{tenant_ids_of, capacity_of}
use arena_hero_agent.Alliance.TaskMarket.Promises.{
  assign_tasks_outcome, tasks_partitioned, capacity_respected, assignments_admitted,
  no_task_starved,
}

abbrev urgent : MarketTask
urgent = record {
  task_id = "u";
  priority = 9;
  deadline_tick = some 40;
  weight = 3;
  eligible_tenants = [];
  required_tenant = none;
}

abbrev bound : MarketTask
bound = record {
  task_id = "b";
  priority = 5;
  deadline_tick = none;
  weight = 2;
  eligible_tenants = [];
  required_tenant = some "t2";
}

abbrev extra : MarketTask
extra = record {
  task_id = "e";
  priority = 5;
  deadline_tick = none;
  weight = 1;
  eligible_tenants = "t1" ∷ [];
  required_tenant = none;
}

abbrev tasks : List MarketTask
tasks = extra ∷ bound ∷ urgent ∷ []

abbrev offer : String → ℕ → TenantCapacity
offer t n = record { tenant_id = t; capacity = n }

abbrev tenants : List TenantCapacity
tenants = offer "t2" 4 ∷ offer "t1" 3 ∷ []

abbrev result : AssignmentResult
result = record {
  assignments =
      record { task_id = "b"; tenant_id = "t2" } ∷ record { task_id = "u"; tenant_id = "t1" } ∷ [];
  rejected = record { task_id = "e"; reason = no_eligible_with_capacity } ∷ [];
}

runs :
    (assign_tasks tasks tenants ≡ ok result)
    × (assign_tasks (extra ∷ extra ∷ []) tenants ≡ raise value_error)
    × (assign_tasks tasks (offer "t1" 1 ∷ offer "t1" 2 ∷ []) ≡ raise value_error)
    × (market_task (record bound { eligible_tenants = "t1" ∷ [] }) ≡ raise value_error)
unfolding assign_tasks market_task
runs = (refl, refl, refl, refl)

-- Tasks that name a tenant that is not on the market are rejected, and the call returns.
unknown_tenant_rejected :
    assign_tasks
      (record bound { required_tenant = some "t9" }
        ∷ record extra { eligible_tenants = "t9" ∷ [] }
        ∷ [])
      tenants
    ≡ ok (record {
      assignments = [];
      rejected =
          record { task_id = "b"; reason = required_not_on_market "t9" }
          ∷ record { task_id = "e"; reason = no_eligible_with_capacity }
          ∷ [];
    })
unfolding assign_tasks
unknown_tenant_rejected = refl

assign_tasks_outcome_example :
    (((has_duplicate (tenant_ids_of tenants) || has_duplicate (task_ids tasks)) ≡ true)
      × (assign_tasks tasks tenants ≡ raise value_error))
    ⊎ (((has_duplicate (tenant_ids_of tenants) || has_duplicate (task_ids tasks)) ≡ false)
        × (r : AssignmentResult) × (assign_tasks tasks tenants ≡ ok r))
assign_tasks_outcome_example = assign_tasks_outcome tasks tenants

tasks_partitioned_example : Perm {A = String} ("b" ∷ "u" ∷ "e" ∷ []) ("e" ∷ "b" ∷ "u" ∷ [])
tasks_partitioned_example = tasks_partitioned tasks tenants {result = result} (runs.0)

capacity_respected_example : load "t1" tasks result.assignments ≤ 3
capacity_respected_example = capacity_respected tasks tenants {result = result} "t1" (runs.0)

assignments_admitted_example : (mem_text "t2" (tenant_ids_of tenants) && admits bound "t2") ≡ true
assignments_admitted_example =
    assignments_admitted tasks tenants {result = result} bound "t2" (runs.0) (inr (inl refl)) refl

no_task_starved_example : capacity_of "t1" tenants < load "t1" tasks result.assignments + 1
unfolding mem_text
no_task_starved_example =
    no_task_starved tasks tenants {result = result} extra "t1" (runs.0) (inl refl) refl refl
