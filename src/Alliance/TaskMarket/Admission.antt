-- ===== src/Alliance/TaskMarket/Admission.antt =====
-- Who gets a task, and why a task is left over.
use mathlib.Core.Path.{subst}
use arena_hero_agent.Prelude.{
  ℕ, ◌<◌, ◌≡◌, sym, ap, inl, inr, true, false, ◌&&◌, List, [], ◌∷◌, eq_iff, arith,
}
use arena_hero_agent.Prelude.Dict.{Dict, mem_text}
use arena_hero_agent.Prelude.Sort.{has_duplicate, Among}
use arena_hero_agent.Prelude.Exceptions.{ok}
use arena_hero_agent.Domain.ValueObjects.{TenantId}
use arena_hero_agent.Alliance.TaskMarket.{
  MarketTask, rejected_ids, candidate_tenants, left_of, Market, assign_each,
}
use arena_hero_agent.Alliance.TaskMarket.Choose.{
  admits, mem_text-candidate_tenants, choose-some, choose-none, assign_each-cases,
}
use arena_hero_agent.Alliance.TaskMarket.Partition.{task_ids, assign_each-mem_text}
use arena_hero_agent.Alliance.TaskMarket.Load.{assigned, assigned-mem_text, assign_each-load}

Among-mem_text :
    (task : MarketTask) (tasks : List MarketTask)
    → Among task tasks
    → mem_text task.task_id (task_ids tasks) ≡ true
unfolding mem_text
Among-mem_text task [] h = absurd h.lower
Among-mem_text task (first ∷ tasks) (inl e) =
    rw e (ground (arith, eq_iff first.task_id first.task_id))
Among-mem_text task (first ∷ tasks) (inr h) =
    ground (arith, eq_iff task.task_id first.task_id, Among-mem_text task tasks h)

module _ (tenant_ids : List TenantId) (t : TenantId) where
  pub assign_each-admits :
      (task : MarketTask) (tasks : List MarketTask) (remaining : Dict ℕ) {m : Market}
      → assign_each tenant_ids tasks remaining ≡ ok m
      → has_duplicate (task_ids tasks) ≡ false
      → Among task tasks
      → assigned task.task_id t m.assignments ≡ true
      → (mem_text t tenant_ids && admits task t) ≡ true
  unfolding has_duplicate mem_text
  assign_each-admits task [] remaining e distinct h given = absurd h.lower
  assign_each-admits task (first ∷ tasks) remaining {m} e distinct among given =
      elim (assign_each-cases tenant_ids first tasks remaining e) [
        | inl (m', _, rest, last) ↦
            let given' : assigned task.task_id t m'.assignments ≡ true =
              subst (λ m. assigned task.task_id t m.assignments ≡ true) last given in
            elim among [
              | inl e ↦ ground (
                arith,
                ap (λ x. x.task_id) e,
                assigned-mem_text task.task_id t m'.assignments given',
                assign_each-mem_text tenant_ids task.task_id tasks remaining rest,
              )
              | inr later ↦ assign_each-admits task tasks remaining rest (ground arith) later given'
            ]
        | inr (u, m', picked, rest, last) ↦
            let given' : assigned task.task_id t
                  (record { task_id = first.task_id; tenant_id = u } ∷ m'.assignments)
                ≡ true =
              subst (λ m. assigned task.task_id t m.assignments ≡ true) last given in
            elim among [
              | inl e ↦ rw e (
                  ground (
                    arith,
                    ap (λ x. x.task_id) e,
                    eq_iff t u,
                    choose-some first.weight remaining (candidate_tenants first tenant_ids) picked,
                    mem_text-candidate_tenants t first tenant_ids,
                    assigned-mem_text task.task_id t m'.assignments,
                    assign_each-mem_text tenant_ids task.task_id tasks _ rest,
                  ))
              | inr later ↦ assign_each-admits task tasks _ rest (ground arith) later (
                  ground
                    (arith, eq_iff task.task_id first.task_id, Among-mem_text task tasks later))
            ]
      ]

  -- A task that is left over asks for more than is left of any tenant that it admits.
  pub assign_each-starved :
      (task : MarketTask) (tasks : List MarketTask) (remaining : Dict ℕ) {m : Market}
      → assign_each tenant_ids tasks remaining ≡ ok m
      → has_duplicate (task_ids tasks) ≡ false
      → Among task tasks
      → mem_text task.task_id (rejected_ids m.rejected) ≡ true
      → (mem_text t tenant_ids && admits task t) ≡ true
      → left_of t m.remaining < task.weight
  unfolding has_duplicate mem_text
  assign_each-starved task [] remaining e distinct h out admitted = absurd h.lower
  assign_each-starved task (first ∷ tasks) remaining {m} e distinct among out admitted =
      elim (assign_each-cases tenant_ids first tasks remaining e) [
        | inl (m', picked, rest, last) ↦ elim among [
          | inl e ↦
              subst (λ m. left_of t m.remaining < task.weight) (sym last)
                (rw e (
                  ground (
                    arith,
                    ap (λ x. admits x t) e,
                    mem_text-candidate_tenants t first tenant_ids,
                    choose-none first.weight remaining (candidate_tenants first tenant_ids) t
                        picked,
                    assign_each-load tenant_ids t tasks remaining rest,
                  )))
          | inr later ↦
              subst (λ m. left_of t m.remaining < task.weight) (sym last)
                (assign_each-starved task tasks remaining rest (ground arith) later
                  (ground (
                    arith,
                    ap (λ m. rejected_ids m.rejected) last,
                    eq_iff task.task_id first.task_id,
                    Among-mem_text task tasks later,
                  ))
                  admitted)
        ]
        | inr (u, m', picked, rest, last) ↦ elim among [
          | inl e ↦ ground (
            arith,
            ap (λ x. x.task_id) e,
            ap (λ m. rejected_ids m.rejected) last,
            assign_each-mem_text tenant_ids task.task_id tasks _ rest,
          )
          | inr later ↦
              subst (λ m. left_of t m.remaining < task.weight) (sym last)
                (assign_each-starved task tasks _ rest (ground arith) later
                  (ground (arith, ap (λ m. rejected_ids m.rejected) last)) admitted)
        ]
      ]
