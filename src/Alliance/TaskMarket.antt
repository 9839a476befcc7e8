-- ===== src/Alliance/TaskMarket.antt =====
-- alliance/task_market.py: the deterministic assignment of offered tasks to tenants. Task ids are
-- texts; the text of a rejection is one constructor for each message.
pub mod Choose
pub mod Partition
pub mod Load
pub mod Table
pub mod Outcome
pub mod Promises
mod Tests
pub mod Admission
use arena_hero_agent.Prelude.{
  ℕ, ◌+◌, ◌-◌, Bool, true, false, ◌&&◌, ◌||◌, not, Option, none, some, List, [], ◌∷◌, map, String,
  ltb, leb, if◌then◌else◌, str_eq,
}
use arena_hero_agent.Prelude.Dict.{Dict, keys, lookup, insert, mem_text}
use arena_hero_agent.Prelude.Sort.{text_leq, sort_by, has_duplicate}
use arena_hero_agent.Prelude.Exceptions.{
  Result, ok, raise, value_error, key_error, ◌>>=◌, ◌>>◌, raise_if,
}
use arena_hero_agent.Domain.ValueObjects.{TenantId}

-- `_NO_DEADLINE`: 2^63 - 1
abbrev pub no_deadline : ℕ
no_deadline = 9223372036854775807

pub record MarketTask : Type 0 where
  pub task_id : String
  pub priority : ℕ
  pub deadline_tick : Option ℕ
  pub weight : ℕ
  pub eligible_tenants : List TenantId
  pub required_tenant : Option TenantId

-- `tuple(dict.fromkeys(tenants))`: each tenant once, in the order of the first occurrences
abbrev unique_from : List TenantId → List TenantId → List TenantId
unique_from seen [] = []
unique_from seen (t ∷ tenants) =
    let rest = unique_from seen tenants in
    let first = t ∷ unique_from (t ∷ seen) tenants in if mem_text t seen then rest else first

abbrev pub is_empty {ℓ} : {A : Type ℓ} → List A → Bool
is_empty [] = true
is_empty (_ ∷ _) = false

-- `MarketTask.__post_init__`; priorities and deadlines below 0 are ruled out by their type.
pub market_task : MarketTask → Result MarketTask
unfolding mem_text
market_task task = do
  raise_if (str_eq task.task_id "") value_error
  raise_if (ltb task.weight 1) value_error
  let eligible = unique_from [] task.eligible_tenants
  raise_if
      (elim task.required_tenant [
        | none ↦ false
        | some t ↦ not (is_empty eligible) && not (mem_text t eligible)
      ])
      value_error
  ok (record task { eligible_tenants = eligible })

pub record TenantCapacity : Type 0 where
  pub tenant_id : TenantId
  pub capacity : ℕ

pub record TaskAssignment : Type 0 where
  pub task_id : String
  pub tenant_id : TenantId

pub data RejectionReason : Type 0 where
  required_not_on_market required_without_capacity : TenantId → RejectionReason
  no_eligible_with_capacity no_tenant_with_capacity : RejectionReason

pub record RejectedTask : Type 0 where
  pub task_id : String
  pub reason : RejectionReason

pub record AssignmentResult : Type 0 where
  pub assignments : List TaskAssignment
  pub rejected : List RejectedTask

abbrev pub assigned_ids : List TaskAssignment → List String
assigned_ids items = map (λ a. a.task_id) items

abbrev pub rejected_ids : List RejectedTask → List String
rejected_ids items = map (λ r. r.task_id) items

-- `set(texts) & set(others)` is not empty
pub overlaps : List String → List String → Bool
unfolding mem_text
overlaps [] others = false
overlaps (t ∷ texts) others = mem_text t others || overlaps texts others

-- `AssignmentResult.__post_init__`
pub assignment_result : List TaskAssignment → List RejectedTask → Result AssignmentResult
unfolding has_duplicate overlaps
assignment_result assignments rejected = do
  raise_if (has_duplicate (assigned_ids assignments) || has_duplicate (rejected_ids rejected))
      value_error
  raise_if (overlaps (assigned_ids assignments) (rejected_ids rejected)) value_error
  ok (record { assignments = assignments; rejected = rejected })

abbrev deadline : MarketTask → ℕ
deadline task = elim task.deadline_tick [ none ↦ no_deadline | some tick ↦ tick ]

-- The order by `order_key`: (-priority, deadline, task_id).
abbrev pub task_leq : MarketTask → MarketTask → Bool
task_leq a b =
    if ltb b.priority a.priority
    then true
    else if ltb a.priority b.priority
    then false
    else if ltb (deadline a) (deadline b)
    then true
    else if ltb (deadline b) (deadline a)
    then false
    else text_leq a.task_id b.task_id

-- The loop that fills `capacities`, in the order of the sorted tenants.
pub capacity_table : List TenantCapacity → Dict ℕ → Result (Dict ℕ)
unfolding lookup insert
capacity_table [] table = ok table
capacity_table (item ∷ items) table = elim (lookup item.tenant_id table) [
  | some _ ↦ raise value_error
  | none ↦ capacity_table items (insert item.tenant_id item.capacity table)
]

abbrev pub filter_mem : List TenantId → List TenantId → List TenantId
filter_mem [] eligible = []
filter_mem (t ∷ tenants) eligible =
    let rest = filter_mem tenants eligible in if mem_text t eligible then t ∷ rest else rest

-- `_candidate_tenants`
pub candidate_tenants : MarketTask → List TenantId → List TenantId
unfolding mem_text
candidate_tenants task tenant_ids = elim task.required_tenant [
  | some t ↦ if not (mem_text t tenant_ids) then [] else t ∷ []
  | none ↦
      if is_empty task.eligible_tenants
      then tenant_ids
      else filter_mem tenant_ids task.eligible_tenants
]

-- The loop that chooses the first candidate with `remaining[tenant_id] >= task.weight`.
pub choose : (weight : ℕ) → Dict ℕ → List TenantId → Result (Option TenantId)
unfolding lookup
choose weight remaining [] = ok none
choose weight remaining (t ∷ tenants) = elim (lookup t remaining) [
  | none ↦ raise key_error
  | some left ↦ elim (leb weight left) [
    | true ↦ ok (some t)
    | false ↦ choose weight remaining tenants
  ]
]

-- `remaining.get(t, 0)`
abbrev pub left_of : TenantId → Dict ℕ → ℕ
left_of t remaining = elim (lookup t remaining) [ none ↦ 0 | some left ↦ left ]

abbrev any_fits : ℕ → Dict ℕ → List TenantId → Bool
any_fits weight remaining [] = false
any_fits weight remaining (t ∷ tenants) =
    leb weight (left_of t remaining) || any_fits weight remaining tenants

-- `_rejection_reason`
pub rejection_reason : MarketTask → Dict ℕ → RejectionReason
unfolding lookup
rejection_reason task remaining = elim task.required_tenant [
  | some t ↦ elim (lookup t remaining) [
    | none ↦ required_not_on_market t
    | some _ ↦ required_without_capacity t
  ]
  | none ↦
      if not (is_empty task.eligible_tenants)
        && not (any_fits task.weight remaining task.eligible_tenants)
      then no_eligible_with_capacity
      else no_tenant_with_capacity
]

-- What the loop over the tasks leaves in its three variables.
pub record Market : Type 0 where
  pub remaining : Dict ℕ
  pub assignments : List TaskAssignment
  pub rejected : List RejectedTask

abbrev pub assigning : MarketTask → TenantId → Market → Market
assigning task t m = record m {
  assignments = record { task_id = task.task_id; tenant_id = t } ∷ m.assignments;
}

abbrev pub rejecting : MarketTask → RejectionReason → Market → Market
rejecting task reason m = record m {
  rejected = record { task_id = task.task_id; reason = reason } ∷ m.rejected;
}

-- The loop over the ordered tasks. The lists that it appends to hold the tasks in their order.
pub assign_each : List TenantId → List MarketTask → Dict ℕ → Result Market
unfolding candidate_tenants choose rejection_reason insert lookup
assign_each tenant_ids [] remaining =
    ok (record { remaining = remaining; assignments = []; rejected = [] })
assign_each tenant_ids (task ∷ tasks) remaining = do
  chosen ← choose task.weight remaining (candidate_tenants task tenant_ids)
  elim chosen [
    | none ↦ assign_each tenant_ids tasks remaining >>= λ m.
        ok (rejecting task (rejection_reason task remaining) m)
    | some t ↦
        assign_each tenant_ids tasks (insert t (left_of t remaining - task.weight) remaining)
        >>= λ m. ok (assigning task t m)
  ]

abbrev pub tenant_leq : TenantCapacity → TenantCapacity → Bool
tenant_leq a b = text_leq a.tenant_id b.tenant_id

pub assign_tasks : List MarketTask → List TenantCapacity → Result AssignmentResult
unfolding sort_by capacity_table assign_each assignment_result
assign_tasks tasks tenants = do
  capacities ← capacity_table (sort_by tenant_leq tenants) []
  m ← assign_each (keys capacities) (sort_by task_leq tasks) capacities
  assignment_result (sort_by (λ a b. text_leq a.task_id b.task_id) m.assignments)
      (sort_by (λ a b. text_leq a.task_id b.task_id) m.rejected)
