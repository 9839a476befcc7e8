-- ===== src/Runtime/Leases/Replace.antt =====
-- The invariant under `replace`, field by field.
use arena_hero_agent.Prelude.{ℕ, ◌≤◌, ◌<◌, ◌≡◌, ◌≢◌, Option, none, some, arith, eq_iff}
use arena_hero_agent.Domain.ValueObjects.{
  TenantId, DecisionId, Generation, FencingToken, DeadlineBudget,
}
use arena_hero_agent.Runtime.Leases.{active, Kind, Coordinator, slot_at, replace}
use arena_hero_agent.Runtime.Leases.Invariant.{IsValid}

module _ (k : Kind) (t : TenantId) (g : Generation) (d : Option DecisionId)
    (expected : FencingToken) (b : DeadlineBudget) (now now' : ℕ) (s : Coordinator)
    (v : IsValid s) where
  abbrev after : Coordinator
  after = (replace k t g d expected b now now' s).1

  fence_pos : (j : Kind) (u : TenantId) → 1 ≤ (slot_at j u after).next_fence
  unfolding replace
  fence_pos j u = ground (arith, eq_iff u t, v.fence_pos k t, v.fence_pos j u)

  holds :
      (j : Kind) (u : TenantId) (q : ℕ)
      → (slot_at j u after).current ≡ some q
      → (q < after.next_handle)
        × ((after.handles q).kind ≡ j)
        × ((after.handles q).tenant_id ≡ u)
        × ((after.handles q).disposition ≡ active)
  unfolding replace
  holds j u q e = ground (arith, eq_iff u t, v.fence_pos k t, v.holds j u q, v.holds k t q)

  is_held :
      (q : ℕ)
      → q < after.next_handle
      → (after.handles q).disposition ≡ active
      → (slot_at (after.handles q).kind (after.handles q).tenant_id after).current ≡ some q
  unfolding replace
  is_held q lt e = ground (
    arith,
    eq_iff t t,
    eq_iff (s.handles q).tenant_id t,
    v.fence_pos k t,
    v.is_held q,
    v.holds k t q,
  )

  has_slot :
      (q : ℕ)
      → q < after.next_handle
      → after.slots (after.handles q).kind (after.handles q).tenant_id ≢ none
  unfolding replace
  has_slot q lt =
      ground (arith, eq_iff t t, eq_iff (s.handles q).tenant_id t, v.fence_pos k t, v.has_slot q)

  below :
      (q : ℕ)
      → q < after.next_handle
      → (after.handles q).fencing_token.value
        < (slot_at (after.handles q).kind (after.handles q).tenant_id after).next_fence
  unfolding replace
  below q lt =
      ground (arith, eq_iff t t, eq_iff (s.handles q).tenant_id t, v.fence_pos k t, v.below q)

  increasing :
      (q r : ℕ)
      → q < r
      → r < after.next_handle
      → (after.handles q).kind ≡ (after.handles r).kind
      → (after.handles q).tenant_id ≡ (after.handles r).tenant_id
      → (after.handles q).fencing_token.value < (after.handles r).fencing_token.value
  unfolding replace
  increasing q r lt bound kinds tenants = ground (
    arith,
    eq_iff t t,
    eq_iff (s.handles q).tenant_id t,
    v.fence_pos k t,
    v.below q,
    v.increasing q r,
  )

  pub replace-IsValid : IsValid after
  replace-IsValid = record {
    fence_pos = fence_pos;
    holds = holds;
    is_held = is_held;
    has_slot = has_slot;
    below = below;
    increasing = increasing;
  }
