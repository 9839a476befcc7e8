-- ===== src/Alliance/TaskMarket/Choose.antt =====
-- The tenants that a task admits, and the one that the market chooses among them.
use arena_hero_agent.Prelude.{
  ℕ, ◌-◌, ◌≤◌, ◌<◌, ◌≡◌, ◌≢◌, refl, ◌⊎◌, inl, inr, Bool, true, ◌&&◌, Option, none, some, List, [],
  ◌∷◌, leb, if◌then◌else◌, str_eq, eq_iff, arith, Bool-cases, Option-cases,
}
use arena_hero_agent.Prelude.Dict.{Dict, lookup, insert, mem_text, lookup-insert}
use arena_hero_agent.Prelude.Exceptions.{ok, >>=-ok, Result-cases}
use arena_hero_agent.Domain.ValueObjects.{TenantId}
use arena_hero_agent.Alliance.TaskMarket.{
  MarketTask, is_empty, filter_mem, candidate_tenants, choose, left_of, rejection_reason, Market,
  assigning, rejecting, assign_each,
}

-- Whether a task may be bound to a tenant: the required one, else an eligible one, else any.
abbrev pub admits : MarketTask → TenantId → Bool
admits task t = elim task.required_tenant [
  | some r ↦ str_eq t r
  | none ↦ if is_empty task.eligible_tenants then true else mem_text t task.eligible_tenants
]

mem_text-filter_mem :
    (t : TenantId) (tenants eligible : List TenantId)
    → mem_text t (filter_mem tenants eligible) ≡ (mem_text t tenants && mem_text t eligible)
unfolding mem_text
mem_text-filter_mem t [] eligible = ground arith
mem_text-filter_mem t (u ∷ tenants) eligible = elim (Bool-cases (mem_text u eligible)) [
  | inl e ↦ ground (arith, eq_iff t u, mem_text-filter_mem t tenants eligible)
  | inr e ↦ ground (arith, eq_iff t u, mem_text-filter_mem t tenants eligible)
]

pub mem_text-candidate_tenants :
    (t : TenantId) (task : MarketTask) (tenant_ids : List TenantId)
    → mem_text t (candidate_tenants task tenant_ids) ≡ (mem_text t tenant_ids && admits task t)
unfolding mem_text candidate_tenants
mem_text-candidate_tenants t task tenant_ids = elim (Option-cases task.required_tenant) [
  | inr (r, e) ↦ rw e (ground (arith, eq_iff t r))
  | inl e ↦ rw e (elim (Bool-cases (is_empty task.eligible_tenants)) [
    | inl all ↦ rw all (ground arith)
    | inr some_only ↦ rw some_only (mem_text-filter_mem t tenant_ids task.eligible_tenants)
  ])
]

pub left_of-insert :
    (k j : TenantId) (v : ℕ) (d : Dict ℕ)
    → left_of j (insert k v d) ≡ (if str_eq j k then v else left_of j d)
left_of-insert k j v d = ground (arith, lookup-insert k j v d)

pub choose-some :
    (weight : ℕ) (remaining : Dict ℕ) (tenants : List TenantId) {t : TenantId}
    → choose weight remaining tenants ≡ ok (some t)
    → (mem_text t tenants ≡ true) × (weight ≤ left_of t remaining)
unfolding choose mem_text
choose-some weight remaining [] {t} e = ground arith
choose-some weight remaining (u ∷ tenants) {t} e =
    ground (arith, eq_iff t u, choose-some weight remaining tenants {t = t})

pub choose-none :
    (weight : ℕ) (remaining : Dict ℕ) (tenants : List TenantId) (t : TenantId)
    → choose weight remaining tenants ≡ ok none
    → mem_text t tenants ≡ true
    → left_of t remaining < weight
unfolding choose mem_text
choose-none weight remaining [] t e held = ground arith
choose-none weight remaining (u ∷ tenants) t e held =
    ground (arith, eq_iff t u, choose-none weight remaining tenants t)

pub choose-ok :
    (weight : ℕ) (remaining : Dict ℕ) (tenants : List TenantId)
    → ((t : TenantId) → mem_text t tenants ≡ true → lookup t remaining ≢ none)
    → (chosen : Option TenantId) × (choose weight remaining tenants ≡ ok chosen)
unfolding choose mem_text
choose-ok weight remaining [] known = (none, refl)
choose-ok weight remaining (u ∷ tenants) known = elim (Option-cases (lookup u remaining)) [
  | inl e ↦ absurd (known u (ground (arith, eq_iff u u)) e)
  | inr (left, e) ↦
      rw (e, choose)
        (elim (Bool-cases (leb weight left)) [
          | inl fits ↦ rw (fits, choose) (some u, refl)
          | inr not_fits ↦
              rw (not_fits, choose)
                (choose-ok weight remaining tenants (λ t h. known t (ground (arith, eq_iff t u))))
        ])
]

-- One round of the loop over the tasks: the task is rejected or a tenant takes it.
pub assign_each-cases :
    (tenant_ids : List TenantId) (task : MarketTask) (tasks : List MarketTask) (remaining : Dict ℕ)
    {m : Market}
    → assign_each tenant_ids (task ∷ tasks) remaining ≡ ok m
    → ((m' : Market) × (choose task.weight remaining (candidate_tenants task tenant_ids) ≡ ok none)
        × (assign_each tenant_ids tasks remaining ≡ ok m')
        × (m ≡ rejecting task (rejection_reason task remaining) m'))
      ⊎ ((t : TenantId) × (m' : Market) × (choose task.weight remaining
              (candidate_tenants task tenant_ids)
            ≡ ok (some t))
          × (assign_each tenant_ids tasks (insert t (left_of t remaining - task.weight) remaining)
              ≡ ok m')
          × (m ≡ assigning task t m'))
unfolding assign_each
assign_each-cases tenant_ids task tasks remaining {m} e =
    let (chosen, picked, _) =
      >>=-ok (choose task.weight remaining (candidate_tenants task tenant_ids)) _ e in
    elim (Option-cases chosen) [
      | inl none_fits ↦ elim (Result-cases (assign_each tenant_ids tasks remaining)) [
        | inl (x, raised) ↦ ground arith
        | inr (m', rest) ↦ inl (m', ground arith, rest, ground arith)
      ]
      | inr (t, fits) ↦
          elim (Result-cases (
            assign_each tenant_ids tasks
              (insert t (left_of t remaining - task.weight) remaining))) [
                | inl (x, raised) ↦ ground arith
                | inr (m', rest) ↦ inr (t, m', ground arith, rest, ground arith)
              ]
    ]
