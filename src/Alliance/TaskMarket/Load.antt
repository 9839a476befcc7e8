-- ===== src/Alliance/TaskMarket/Load.antt =====
-- What the assignments take of each tenant's capacity, and what is left of it.
use mathlib.Core.Path.{subst}
use arena_hero_agent.Prelude.{
  ℕ, ◌+◌, ◌-◌, ◌≡◌, refl, sym, inl, inr, Bool, true, false, ◌&&◌, List, [], ◌∷◌, String,
  if◌then◌else◌, str_eq, eq_iff, arith,
}
use arena_hero_agent.Prelude.Dict.{Dict, mem_text}
use arena_hero_agent.Prelude.Sort.{has_duplicate, any_of, sum_of}
use arena_hero_agent.Prelude.Exceptions.{ok}
use arena_hero_agent.Domain.ValueObjects.{TenantId}
use arena_hero_agent.Alliance.TaskMarket.{
  MarketTask, TaskAssignment, assigned_ids, left_of, Market, assign_each,
}
use arena_hero_agent.Alliance.TaskMarket.Choose.{left_of-insert, choose-some, assign_each-cases}
use arena_hero_agent.Alliance.TaskMarket.Partition.{task_ids, assign_each-mem_text}

abbrev pub assigned : String → TenantId → List TaskAssignment → Bool
assigned id t items = any_of (λ a. str_eq id a.task_id && str_eq t a.tenant_id) items

-- The weights of the tasks that are assigned to a tenant, added up.
abbrev pub load : TenantId → List MarketTask → List TaskAssignment → ℕ
load t tasks items = sum_of (λ task. if assigned task.task_id t items then task.weight else 0) tasks

pub assigned-mem_text :
    (id : String) (t : TenantId) (items : List TaskAssignment)
    → assigned id t items ≡ true
    → mem_text id (assigned_ids items) ≡ true
unfolding mem_text
assigned-mem_text id t [] h = ground arith
assigned-mem_text id t (a ∷ items) h =
    ground (arith, eq_iff id a.task_id, assigned-mem_text id t items)

pub load-cons :
    (t : TenantId) (tasks : List MarketTask) (a : TaskAssignment) (items : List TaskAssignment)
    → mem_text a.task_id (task_ids tasks) ≡ false
    → load t tasks (a ∷ items) ≡ load t tasks items
unfolding mem_text
load-cons t [] a items h = refl
load-cons t (task ∷ tasks) a items h =
    ground (
      arith,
      eq_iff task.task_id a.task_id,
      eq_iff a.task_id task.task_id,
      load-cons t tasks a items,
    )

module _ (tenant_ids : List TenantId) where
  -- What is left of a tenant's capacity and its load make up what there was.
  pub assign_each-load :
      (t : TenantId) (tasks : List MarketTask) (remaining : Dict ℕ) {m : Market}
      → assign_each tenant_ids tasks remaining ≡ ok m
      → has_duplicate (task_ids tasks) ≡ false
      → left_of t m.remaining + load t tasks m.assignments ≡ left_of t remaining
  unfolding assign_each has_duplicate mem_text
  assign_each-load t [] remaining e distinct = ground arith
  assign_each-load t (task ∷ tasks) remaining e distinct =
      let Balanced : Market → Type 0 =
        λ m. left_of t m.remaining + load t (task ∷ tasks) m.assignments ≡ left_of t remaining in
      elim (assign_each-cases tenant_ids task tasks remaining e) [
        | inl (m', _, rest, last) ↦ subst Balanced (sym last) (
            ground (
              arith,
              assigned-mem_text task.task_id t m'.assignments,
              assign_each-mem_text tenant_ids task.task_id tasks remaining rest,
              assign_each-load t tasks remaining rest,
            ))
        | inr (u, m', picked, rest, last) ↦ subst Balanced (sym last) (
            ground (
              arith,
              eq_iff t u,
              eq_iff task.task_id task.task_id,
              choose-some task.weight remaining _ picked,
              left_of-insert u t (left_of u remaining - task.weight) remaining,
              load-cons t tasks (record { task_id = task.task_id; tenant_id = u }) m'.assignments,
              assigned-mem_text task.task_id t m'.assignments,
              assign_each-mem_text tenant_ids task.task_id tasks _ rest,
              assign_each-load t tasks _ rest,
            ))
      ]
