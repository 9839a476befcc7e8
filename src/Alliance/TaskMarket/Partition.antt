-- ===== src/Alliance/TaskMarket/Partition.antt =====
-- Every task ends in exactly one of the two lists.
use mathlib.Core.List.{Perm}
use mathlib.Core.List.Perm
use arena_hero_agent.Prelude.{
  ◌≡◌, refl, inl, inr, ◌||◌, List, [], ◌∷◌, ◌++◌, map, String, ℕ, eq_iff, arith,
}
use arena_hero_agent.Prelude.Dict.{Dict, mem_text}
use arena_hero_agent.Prelude.Sort.{has_duplicate}
use arena_hero_agent.Prelude.Exceptions.{ok}
use arena_hero_agent.Domain.ValueObjects.{TenantId}
use arena_hero_agent.Alliance.TaskMarket.{
  MarketTask, assigned_ids, rejected_ids, overlaps, Market, assign_each,
}
use arena_hero_agent.Alliance.TaskMarket.Choose.{assign_each-cases}

abbrev pub task_ids : List MarketTask → List String
task_ids tasks = map (λ task. task.task_id) tasks

Perm-middle :
    (x : String) (front back : List String) → Perm (front ++ (x ∷ back)) (x ∷ (front ++ back))
Perm-middle x [] back = Perm.rfl
Perm-middle x (y ∷ front) back =
    Perm.trans (Perm.cons y (Perm-middle x front back)) (Perm.swap x y (front ++ back))

overlaps-cons :
    (t : String) (texts others : List String)
    → overlaps texts (t ∷ others) ≡ (mem_text t texts || overlaps texts others)
unfolding overlaps mem_text
overlaps-cons t [] others = refl
overlaps-cons t (u ∷ texts) others =
    ground (arith, eq_iff t u, eq_iff u t, overlaps-cons t texts others)

module _ (tenant_ids : List TenantId) where
  -- The ids of the two lists, one list after the other, are those of the tasks in another order.
  pub assign_each-Perm :
      (tasks : List MarketTask) (remaining : Dict ℕ) {m : Market}
      → assign_each tenant_ids tasks remaining ≡ ok m
      → Perm (assigned_ids m.assignments ++ rejected_ids m.rejected) (task_ids tasks)
  unfolding assign_each
  assign_each-Perm [] remaining {m} e =
      let last : m ≡ record { remaining = remaining; assignments = []; rejected = [] } =
        ground arith in
      rw last Perm.rfl
  assign_each-Perm (task ∷ tasks) remaining e =
      elim (assign_each-cases tenant_ids task tasks remaining e) [
        | inl (m', _, rest, last) ↦ rw last (
            Perm.trans
              (Perm-middle task.task_id (assigned_ids m'.assignments) (rejected_ids m'.rejected))
              (Perm.cons task.task_id (assign_each-Perm tasks remaining rest)))
        | inr (t, m', _, rest, last) ↦
            rw last (Perm.cons task.task_id (assign_each-Perm tasks _ rest))
      ]

  pub assign_each-mem_text :
      (k : String) (tasks : List MarketTask) (remaining : Dict ℕ) {m : Market}
      → assign_each tenant_ids tasks remaining ≡ ok m
      → mem_text k (task_ids tasks)
        ≡ (mem_text k (assigned_ids m.assignments) || mem_text k (rejected_ids m.rejected))
  unfolding assign_each mem_text
  assign_each-mem_text k [] remaining e = ground arith
  assign_each-mem_text k (task ∷ tasks) remaining e =
      elim (assign_each-cases tenant_ids task tasks remaining e) [
        | inl (m', _, rest, last) ↦
            rw last (ground (arith, assign_each-mem_text k tasks remaining rest))
        | inr (t, m', _, rest, last) ↦ rw last (ground (arith, assign_each-mem_text k tasks _ rest))
      ]

  -- A task id repeats exactly where the two lists repeat or share an id.
  pub assign_each-has_duplicate :
      (tasks : List MarketTask) (remaining : Dict ℕ) {m : Market}
      → assign_each tenant_ids tasks remaining ≡ ok m
      → has_duplicate (task_ids tasks) ≡ (
          (has_duplicate (assigned_ids m.assignments) || has_duplicate (rejected_ids m.rejected))
          || overlaps (assigned_ids m.assignments) (rejected_ids m.rejected))
  unfolding assign_each mem_text has_duplicate overlaps
  assign_each-has_duplicate [] remaining e = ground arith
  assign_each-has_duplicate (task ∷ tasks) remaining e =
      elim (assign_each-cases tenant_ids task tasks remaining e) [
        | inl (m', _, rest, last) ↦ rw last (
            ground (
              arith,
              overlaps-cons task.task_id (assigned_ids m'.assignments) (rejected_ids m'.rejected),
              assign_each-mem_text task.task_id tasks remaining rest,
              assign_each-has_duplicate tasks remaining rest,
            ))
        | inr (t, m', _, rest, last) ↦ rw last (
            ground (
              arith,
              assign_each-mem_text task.task_id tasks _ rest,
              assign_each-has_duplicate tasks _ rest,
            ))
      ]
