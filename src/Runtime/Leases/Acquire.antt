-- ===== src/Runtime/Leases/Acquire.antt =====
-- The invariant under `acquire`, field by field.
use arena_hero_agent.Prelude.{ℕ, ◌≤◌, ◌<◌, ◌≡◌, ◌≢◌, Option, none, some, arith, eq_iff}
use arena_hero_agent.Domain.ValueObjects.{TenantId, DecisionId, Generation, DeadlineBudget}
use arena_hero_agent.Runtime.Leases.{active, Kind, Coordinator, slot_at, acquire}
use arena_hero_agent.Runtime.Leases.Invariant.{IsValid}

module _ (k : Kind) (t : TenantId) (g : Generation) (d : Option DecisionId) (b : DeadlineBudget)
    (now : ℕ) (s : Coordinator) (v : IsValid s) where
  abbrev after : Coordinator
  after = (acquire k t g d b now s).1

  fence_pos : (j : Kind) (u : TenantId) → 1 ≤ (slot_at j u after).next_fence
  unfolding acquire
  fence_pos j u = ground (arith, eq_iff u t, v.fence_pos k t, v.fence_pos j u)

  holds :
      (j : Kind) (u : TenantId) (q : ℕ)
      → (slot_at j u after).current ≡ some q
      → (q < after.next_handle)
        × ((after.handles q).kind ≡ j)
        × ((after.handles q).tenant_id ≡ u)
        × ((after.handles q).disposition ≡ active)
  unfolding acquire
  holds j u q e = ground (arith, eq_iff u t, v.fence_pos k t, v.holds j u q)

  is_held :
      (q : ℕ)
      → q < after.next_handle
      → (after.handles q).disposition ≡ active
      → (slot_at (after.handles q).kind (after.handles q).tenant_id after).current ≡ some q
  unfolding acquire
  is_held q lt e = ground (
    arith,
    eq_iff t t,
    eq_iff (s.handles q).tenant_id t,
    v.fence_pos k t,
    v.is_held q,
    v.holds k t q,
  )

  has_slot :
      (q : ℕ)
      → q < after.next_handle
      → after.slots (after.handles q).kind (after.handles q).tenant_id ≢ none
  unfolding acquire
  has_slot q lt =
      ground (arith, eq_iff t t, eq_iff (s.handles q).tenant_id t, v.fence_pos k t, v.has_slot q)

  below :
      (q : ℕ)
      → q < after.next_handle
      → (after.handles q).fencing_token.value
        < (slot_at (after.handles q).kind (after.handles q).tenant_id after).next_fence
  unfolding acquire
  below q lt =
      ground (arith, eq_iff t t, eq_iff (s.handles q).tenant_id t, v.fence_pos k t, v.below q)

  increasing :
      (q r : ℕ)
      → q < r
      → r < after.next_handle
      → (after.handles q).kind ≡ (after.handles r).kind
      → (after.handles q).tenant_id ≡ (after.handles r).tenant_id
      → (after.handles q).fencing_token.value < (after.handles r).fencing_token.value
  unfolding acquire
  increasing q r lt bound kinds tenants = ground (
    arith,
    eq_iff t t,
    eq_iff (s.handles q).tenant_id t,
    v.fence_pos k t,
    v.below q,
    v.increasing q r,
  )

  pub acquire-IsValid : IsValid after
  acquire-IsValid = record {
    fence_pos = fence_pos;
    holds = holds;
    is_held = is_held;
    has_slot = has_slot;
    below = below;
    increasing = increasing;
  }
