-- ===== src/Alliance/TaskMarket/Promises.antt =====
-- What the market promises to the tasks and the tenants of every call.
use mathlib.Core.List.{Perm}
use mathlib.Core.List.Perm
use arena_hero_agent.Prelude.{
  ◌+◌, ◌≤◌, ◌<◌, ◌≡◌, ◌⊎◌, inl, inr, true, false, ◌&&◌, ◌||◌, List, ◌++◌, ap, str_eq, if◌then◌else◌,
  arith,
}
use arena_hero_agent.Prelude.Dict.{keys, lookup, mem_text}
use arena_hero_agent.Prelude.Sort.{
  text_leq, sort_by, sort_by-perm, has_duplicate, Among, sum_of-sort_by, any_of-sort_by,
  Among-sort_by, mem_text-sort_by,
}
use arena_hero_agent.Prelude.Exceptions.{ok, raise, value_error}
use arena_hero_agent.Domain.ValueObjects.{TenantId}
use arena_hero_agent.Alliance.TaskMarket.{
  MarketTask, TenantCapacity, AssignmentResult, assigned_ids, rejected_ids, task_leq, tenant_leq,
  assign_tasks, Market, left_of,
}
use arena_hero_agent.Alliance.TaskMarket.Choose.{admits}
use arena_hero_agent.Alliance.TaskMarket.Partition.{task_ids, assign_each-Perm}
use arena_hero_agent.Alliance.TaskMarket.Load.{assigned, load, assign_each-load}
use arena_hero_agent.Alliance.TaskMarket.Admission.{assign_each-admits, assign_each-starved}
use arena_hero_agent.Alliance.TaskMarket.Table.{tenant_ids_of, capacity_of}
use arena_hero_agent.Alliance.TaskMarket.Outcome.{sorted, load-sorted, Ran, assign_tasks-cases}

-- A call returns a result exactly where no tenant is offered twice and no task id repeats, whatever
-- tenants the tasks name: one that is not on the market is no error. Else the call raises a
-- ValueError, and no other exception.
pub assign_tasks_outcome :
    (tasks : List MarketTask) (tenants : List TenantCapacity)
    → (((has_duplicate (tenant_ids_of tenants) || has_duplicate (task_ids tasks)) ≡ true)
        × (assign_tasks tasks tenants ≡ raise value_error))
      ⊎ (((has_duplicate (tenant_ids_of tenants) || has_duplicate (task_ids tasks)) ≡ false)
          × (result : AssignmentResult) × (assign_tasks tasks tenants ≡ ok result))
assign_tasks_outcome tasks tenants = elim (assign_tasks-cases tasks tenants) [
  | inl raised ↦ inl raised
  | inr (distinct, m, returned, _) ↦ inr (distinct, sorted m, returned)
]

returned-Ran :
    (tasks : List MarketTask) (tenants : List TenantCapacity) {result : AssignmentResult}
    → assign_tasks tasks tenants ≡ ok result
    → (m : Market) × (result ≡ sorted m) × Ran tasks tenants m
returned-Ran tasks tenants e = elim (assign_tasks-cases tasks tenants) [
  | inl (_, raised) ↦ ground arith
  | inr (_, m, returned, ran) ↦ (m, ground arith, ran)
]

-- What is left of a tenant's capacity after a call, and its load, make up what the call offered.
left-load :
    (t : TenantId) {tasks : List MarketTask} {tenants : List TenantCapacity} (m : Market)
    → Ran tasks tenants m
    → left_of t m.remaining + load t tasks (sorted m).assignments ≡ capacity_of t tenants
unfolding lookup
left-load t {tasks} {tenants} m ran = ground (
  arith,
  ran.holds.left t,
  assign_each-load (keys ran.caps) t (sort_by task_leq tasks) ran.caps ran.run ran.distinct,
  load-sorted t tasks m,
  sum_of-sort_by tenant_leq (λ item. if str_eq t item.tenant_id then item.capacity else 0) tenants,
  sum_of-sort_by task_leq (λ task. if assigned task.task_id t m.assignments then task.weight else 0)
      tasks,
)

module _ (tasks : List MarketTask) (tenants : List TenantCapacity) {result : AssignmentResult} where
  -- Where a call returns, the ids of the assigned and of the rejected tasks, one list after the
  -- other, are the ids of the offered tasks in another order: no task is dropped, invented or
  -- settled twice.
  pub tasks_partitioned :
      assign_tasks tasks tenants ≡ ok result
      → Perm (assigned_ids result.assignments ++ rejected_ids result.rejected) (task_ids tasks)
  tasks_partitioned e =
      let (m, same, ran) = returned-Ran tasks tenants e in
      rw same (
        Perm.trans
          (Perm.append
            (Perm.map (λ a. a.task_id)
              (sort_by-perm (λ a b. text_leq a.task_id b.task_id) m.assignments))
            (Perm.map (λ r. r.task_id)
              (sort_by-perm (λ a b. text_leq a.task_id b.task_id) m.rejected)))
          (Perm.trans (assign_each-Perm (keys ran.caps) (sort_by task_leq tasks) ran.caps ran.run)
            (Perm.map (λ task. task.task_id) (sort_by-perm task_leq tasks))))

  -- Where a call returns, the weights of the tasks that a tenant is given add up to at most the
  -- capacity offered under its id.
  pub capacity_respected :
      (t : TenantId)
      → assign_tasks tasks tenants ≡ ok result
      → load t tasks result.assignments ≤ capacity_of t tenants
  capacity_respected t e =
      let (m, same, ran) = returned-Ran tasks tenants e in
      ground (arith, ap (λ r. load t tasks r.assignments) same, left-load t m ran)

  -- Where a call returns, an offered task is only given to a tenant of the market that the task
  -- admits: the required one, else an eligible one where it names any.
  pub assignments_admitted :
      (task : MarketTask) (t : TenantId)
      → assign_tasks tasks tenants ≡ ok result
      → Among task tasks
      → assigned task.task_id t result.assignments ≡ true
      → (mem_text t (tenant_ids_of tenants) && admits task t) ≡ true
  unfolding mem_text
  assignments_admitted task t e among given =
      let (m, same, ran) = returned-Ran tasks tenants e in
      ground (
        arith,
        ap (λ r. assigned task.task_id t r.assignments) same,
        any_of-sort_by (λ a b. text_leq a.task_id b.task_id)
            (λ a. str_eq task.task_id a.task_id && str_eq t a.tenant_id) m.assignments,
        ran.holds.known t,
        mem_text-sort_by tenant_leq (λ item. item.tenant_id) t tenants,
        assign_each-admits (keys ran.caps) t task (sort_by task_leq tasks) ran.caps ran.run
            ran.distinct (Among-sort_by task_leq task tasks among),
      )

  -- Where a call returns, an offered task that it rejects would exceed the capacity of every tenant
  -- of the market that the task admits, with what the tenant is given in the end.
  pub no_task_starved :
      (task : MarketTask) (t : TenantId)
      → assign_tasks tasks tenants ≡ ok result
      → Among task tasks
      → mem_text task.task_id (rejected_ids result.rejected) ≡ true
      → (mem_text t (tenant_ids_of tenants) && admits task t) ≡ true
      → capacity_of t tenants < load t tasks result.assignments + task.weight
  unfolding mem_text
  no_task_starved task t e among out admitted =
      let (m, same, ran) = returned-Ran tasks tenants e in
      ground (
        arith,
        ap (λ r. load t tasks r.assignments) same,
        ap (λ r. mem_text task.task_id (rejected_ids r.rejected)) same,
        left-load t m ran,
        mem_text-sort_by (λ a b. text_leq a.task_id b.task_id) (λ r. r.task_id) task.task_id
            m.rejected,
        ran.holds.known t,
        mem_text-sort_by tenant_leq (λ item. item.tenant_id) t tenants,
        assign_each-starved (keys ran.caps) t task (sort_by task_leq tasks) ran.caps ran.run
            ran.distinct (Among-sort_by task_leq task tasks among),
      )
