-- ===== src/Alliance/TaskMarket/Table.antt =====
-- The table of capacities, and the loop over the tasks on it, as far as whether they raise.
use arena_hero_agent.Prelude.{
  ℕ, ◌+◌, ◌-◌, ◌≡◌, ◌≢◌, refl, ◌⊎◌, inl, inr, true, false, ◌||◌, none, List, [], ◌∷◌, map,
  if◌then◌else◌, str_eq, eq_iff, arith, Option-cases,
}
use arena_hero_agent.Prelude.Dict.{
  Dict, keys, lookup, insert, mem_text, lookup-insert, mem_text-keys, mem_text-keys-insert,
}
use arena_hero_agent.Prelude.Sort.{has_duplicate, sum_of}
use arena_hero_agent.Prelude.Exceptions.{ok, raise, value_error}
use arena_hero_agent.Domain.ValueObjects.{TenantId}
use arena_hero_agent.Alliance.TaskMarket.{
  MarketTask, TenantCapacity, overlaps, capacity_table, candidate_tenants, left_of,
  rejection_reason, Market, assigning, rejecting, assign_each,
}
use arena_hero_agent.Alliance.TaskMarket.Choose.{
  mem_text-candidate_tenants, left_of-insert, choose-ok,
}

abbrev pub tenant_ids_of : List TenantCapacity → List TenantId
tenant_ids_of items = map (λ item. item.tenant_id) items

-- The capacity that a list offers under a tenant's id.
abbrev pub capacity_of : TenantId → List TenantCapacity → ℕ
capacity_of t items = sum_of (λ item. if str_eq t item.tenant_id then item.capacity else 0) items

overlaps-insert :
    (ids : List TenantId) (k : TenantId) (v : ℕ) (d : Dict ℕ)
    → overlaps ids (keys (insert k v d)) ≡ (mem_text k ids || overlaps ids (keys d))
unfolding overlaps mem_text
overlaps-insert [] k v d = refl
overlaps-insert (t ∷ ids) k v d =
    ground (arith, eq_iff t k, eq_iff k t, mem_text-keys-insert k t v d, overlaps-insert ids k v d)

-- What a table holds that has taken in a list of capacities.
pub record Holds (items : List TenantCapacity) (table caps : Dict ℕ) : Type 0 where
  pub left : (k : TenantId) → left_of k caps ≡ capacity_of k items + left_of k table
  pub known :
      (k : TenantId)
      → mem_text k (keys caps) ≡ (mem_text k (tenant_ids_of items) || mem_text k (keys table))

-- The table is filled exactly where no tenant is offered twice.
pub capacity_table-cases :
    (items : List TenantCapacity) (table : Dict ℕ)
    → (((has_duplicate (tenant_ids_of items) || overlaps (tenant_ids_of items) (keys table)) ≡ true)
        × (capacity_table items table ≡ raise value_error))
      ⊎ (((has_duplicate (tenant_ids_of items) || overlaps (tenant_ids_of items) (keys table))
            ≡ false)
          × (caps : Dict ℕ) × (capacity_table items table ≡ ok caps)
          × Holds items table caps)
unfolding has_duplicate overlaps mem_text capacity_table
capacity_table-cases [] table =
    inr (refl, table, refl, record { left = λ k. omega arith; known = λ k. refl })
capacity_table-cases (item ∷ items) table = elim (Option-cases (lookup item.tenant_id table)) [
  | inr (c, there) ↦
      inl (ground (arith, mem_text-keys item.tenant_id table), rw (there, capacity_table) refl)
  | inl fresh ↦ elim (capacity_table-cases items (insert item.tenant_id item.capacity table)) [
    | inl (repeats, raised) ↦ inl (
      ground (arith, overlaps-insert (tenant_ids_of items) item.tenant_id item.capacity table),
      rw (fresh, capacity_table) raised,
    )
    | inr (distinct, caps, filled, h) ↦ inr (
      ground (
        arith,
        mem_text-keys item.tenant_id table,
        overlaps-insert (tenant_ids_of items) item.tenant_id item.capacity table,
      ),
      caps,
      rw (fresh, capacity_table) filled,
      record {
        left = λ k. ground (
          arith,
          eq_iff k item.tenant_id,
          h.left k,
          left_of-insert item.tenant_id k item.capacity table,
        );
        known = λ k.
            ground (arith, h.known k, mem_text-keys-insert item.tenant_id k item.capacity table);
      },
    )
  ]
]

-- The loop over the tasks returns, where the tenants are keys of the table.
pub assign_each-ok :
    (tenant_ids : List TenantId) (tasks : List MarketTask) (remaining : Dict ℕ)
    → ((t : TenantId) → mem_text t tenant_ids ≡ true → lookup t remaining ≢ none)
    → (m : Market) × (assign_each tenant_ids tasks remaining ≡ ok m)
unfolding assign_each
assign_each-ok tenant_ids [] remaining known =
    (record { remaining = remaining; assignments = []; rejected = [] }, refl)
assign_each-ok tenant_ids (task ∷ tasks) remaining known =
    let (chosen, picked) =
      choose-ok task.weight remaining (candidate_tenants task tenant_ids)
        (λ t h. known t (ground (arith, mem_text-candidate_tenants t task tenant_ids))) in
    elim (Option-cases chosen) [
      | inl none_fits ↦
          let (m, e) = assign_each-ok tenant_ids tasks remaining known in
          (rejecting task (rejection_reason task remaining) m, rw (picked, none_fits, e) refl)
      | inr (t, fits) ↦
          let (m, e) =
            assign_each-ok tenant_ids tasks (insert t (left_of t remaining - task.weight) remaining)
              (λ j h there. known j h (
                ground (arith, lookup-insert t j (left_of t remaining - task.weight) remaining))) in
          (assigning task t m, rw (picked, fits, e) refl)
    ]
