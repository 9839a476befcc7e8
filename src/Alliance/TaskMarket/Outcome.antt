-- ===== src/Alliance/TaskMarket/Outcome.antt =====
-- The steps of a call of the market, and when it raises.
use arena_hero_agent.Prelude.{
  ℕ, ◌≡◌, refl, ◌⊎◌, inl, inr, true, false, ◌&&◌, ◌||◌, List, [], ◌∷◌, map, Bool, String, str_eq,
  if◌then◌else◌, ◌∙◌, arith, Bool-cases,
}
use arena_hero_agent.Prelude.Dict.{Dict, keys, mem_text, mem_text-keys}
use arena_hero_agent.Prelude.Sort.{
  text_leq, sort_by, insert_sorted, has_duplicate, any_of-sort_by, mem_text-sort_by,
  has_duplicate-sort_by,
}
use arena_hero_agent.Prelude.Exceptions.{ok, raise, value_error}
use arena_hero_agent.Domain.ValueObjects.{TenantId}
use arena_hero_agent.Alliance.TaskMarket.{
  MarketTask, TenantCapacity, AssignmentResult, assigned_ids, rejected_ids, overlaps,
  assignment_result, task_leq, tenant_leq, assign_each, assign_tasks, Market,
}
use arena_hero_agent.Alliance.TaskMarket.Partition.{task_ids, assign_each-has_duplicate}
use arena_hero_agent.Alliance.TaskMarket.Load.{load}
use arena_hero_agent.Alliance.TaskMarket.Table.{
  tenant_ids_of, capacity_table-cases, assign_each-ok, Holds,
}

-- The two lists of a result, each sorted by the ids of the tasks.
abbrev pub sorted : Market → AssignmentResult
sorted m = record {
  assignments = sort_by (λ a b. text_leq a.task_id b.task_id) m.assignments;
  rejected = sort_by (λ a b. text_leq a.task_id b.task_id) m.rejected;
}

pub load-sorted :
    (t : TenantId) (tasks : List MarketTask) (m : Market)
    → load t tasks (sorted m).assignments ≡ load t tasks m.assignments
load-sorted t [] m = refl
load-sorted t (task ∷ tasks) m = ground (
  arith,
  any_of-sort_by (λ a b. text_leq a.task_id b.task_id)
      (λ a. str_eq task.task_id a.task_id && str_eq t a.tenant_id) m.assignments,
  load-sorted t tasks m,
)

module _ {A : Type 0} (leq : A → A → Bool) (name : A → String) where
  overlaps-insert_sorted :
      (x : A) (ys : List A) (others : List String)
      → overlaps (map name (insert_sorted leq x ys)) others
        ≡ (mem_text (name x) others || overlaps (map name ys) others)
  unfolding overlaps insert_sorted
  overlaps-insert_sorted x [] others = refl
  overlaps-insert_sorted x (y ∷ ys) others = ground (arith, overlaps-insert_sorted x ys others)

  overlaps-sort_by :
      (xs : List A) (others : List String)
      → overlaps (map name (sort_by leq xs)) others ≡ overlaps (map name xs) others
  unfolding overlaps sort_by
  overlaps-sort_by [] others = refl
  overlaps-sort_by (x ∷ xs) others =
      ground (arith, overlaps-insert_sorted x (sort_by leq xs) others, overlaps-sort_by xs others)

  overlaps-sort_by_right :
      (texts : List String) (xs : List A)
      → overlaps texts (map name (sort_by leq xs)) ≡ overlaps texts (map name xs)
  unfolding overlaps
  overlaps-sort_by_right [] xs = refl
  overlaps-sort_by_right (t ∷ texts) xs =
      ground (arith, mem_text-sort_by leq name t xs, overlaps-sort_by_right texts xs)

-- The two lists repeat or share an id just where the sorted ones do.
abbrev clash : Market → Bool
clash m =
    (has_duplicate (assigned_ids m.assignments) || has_duplicate (rejected_ids m.rejected))
    || overlaps (assigned_ids m.assignments) (rejected_ids m.rejected)

assignment_result-sorted :
    (m : Market)
    → assignment_result (sorted m).assignments (sorted m).rejected
      ≡ (if clash m then raise value_error else ok (sorted m))
unfolding assignment_result
assignment_result-sorted m =
    rw
      (
        has_duplicate-sort_by (λ a b. text_leq a.task_id b.task_id) (λ a. a.task_id) m.assignments,
        has_duplicate-sort_by (λ a b. text_leq a.task_id b.task_id) (λ r. r.task_id) m.rejected,
        overlaps-sort_by (λ a b. text_leq a.task_id b.task_id) (λ a. a.task_id) m.assignments
            (rejected_ids (sorted m).rejected),
        overlaps-sort_by_right (λ a b. text_leq a.task_id b.task_id) (λ r. r.task_id)
            (assigned_ids m.assignments) m.rejected,
      )
      (ground arith)

-- What a call that returns went through.
pub record Ran (tasks : List MarketTask) (tenants : List TenantCapacity) (m : Market) : Type 0 where
  pub caps : Dict ℕ
  pub holds : Holds (sort_by tenant_leq tenants) [] caps
  pub run : assign_each (keys caps) (sort_by task_leq tasks) caps ≡ ok m
  pub distinct : has_duplicate (task_ids (sort_by task_leq tasks)) ≡ false

overlaps-nil : (texts : List String) → overlaps texts [] ≡ false
unfolding overlaps
overlaps-nil [] = refl
overlaps-nil (t ∷ texts) = overlaps-nil texts

pub assign_tasks-cases :
    (tasks : List MarketTask) (tenants : List TenantCapacity)
    → (((has_duplicate (tenant_ids_of tenants) || has_duplicate (task_ids tasks)) ≡ true)
        × (assign_tasks tasks tenants ≡ raise value_error))
      ⊎ (((has_duplicate (tenant_ids_of tenants) || has_duplicate (task_ids tasks)) ≡ false)
          × (m : Market) × (assign_tasks tasks tenants ≡ ok (sorted m))
          × Ran tasks tenants m)
unfolding assign_tasks assignment_result
assign_tasks-cases tasks tenants =
    let tenants_distinct = has_duplicate-sort_by tenant_leq (λ item. item.tenant_id) tenants in
    elim (capacity_table-cases (sort_by tenant_leq tenants) []) [
      | inl (repeats, raised) ↦ inl (
        ground (arith, overlaps-nil (tenant_ids_of (sort_by tenant_leq tenants))),
        rw raised refl,
      )
      | inr (distinct, caps, filled, h) ↦
          let (m, run) =
            assign_each-ok (keys caps) (sort_by task_leq tasks) caps
              (λ t known gone. ground (arith, mem_text-keys t caps)) in
          let clashes = assign_each-has_duplicate (keys caps) (sort_by task_leq tasks) caps run in
          let tasks_distinct = has_duplicate-sort_by task_leq (λ task. task.task_id) tasks in
          elim (Bool-cases (clash m)) [
            | inl repeats ↦
                inl (ground arith, rw (filled, run) (assignment_result-sorted m ∙ rw repeats refl))
            | inr ids_distinct ↦ inr (
              ground arith,
              m,
              rw (filled, run) (assignment_result-sorted m ∙ rw ids_distinct refl),
              record { caps = caps; holds = h; run = run; distinct = clashes ∙ ids_distinct },
            )
          ]
    ]
