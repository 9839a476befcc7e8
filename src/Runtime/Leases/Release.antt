-- ===== src/Runtime/Leases/Release.antt =====
-- The invariant under `release`, field by field.
use arena_hero_agent.Prelude.{ℕ, ◌≤◌, ◌<◌, ◌≡◌, ◌≢◌, none, some, arith, eq_iff}
use arena_hero_agent.Domain.ValueObjects.{TenantId}
use arena_hero_agent.Runtime.Leases.{active, Kind, Coordinator, slot_at, release}
use arena_hero_agent.Runtime.Leases.Invariant.{IsValid}

module _ (p : ℕ) (s : Coordinator) (v : IsValid s) where
  abbrev after : Coordinator
  after = (release p s).1

  fence_pos : (j : Kind) (u : TenantId) → 1 ≤ (slot_at j u after).next_fence
  unfolding release
  fence_pos j u = ground (
    arith,
    eq_iff u (s.handles p).tenant_id,
    eq_iff (s.handles p).tenant_id (s.handles p).tenant_id,
    v.fence_pos j u,
    v.fence_pos (s.handles p).kind (s.handles p).tenant_id,
  )

  holds :
      (j : Kind) (u : TenantId) (q : ℕ)
      → (slot_at j u after).current ≡ some q
      → (q < after.next_handle)
        × ((after.handles q).kind ≡ j)
        × ((after.handles q).tenant_id ≡ u)
        × ((after.handles q).disposition ≡ active)
  unfolding release
  holds j u q e = ground (
    arith,
    eq_iff u (s.handles p).tenant_id,
    eq_iff (s.handles p).tenant_id (s.handles p).tenant_id,
    eq_iff (s.handles q).tenant_id (s.handles p).tenant_id,
    v.holds j u q,
    v.holds (s.handles p).kind (s.handles p).tenant_id p,
  )

  is_held :
      (q : ℕ)
      → q < after.next_handle
      → (after.handles q).disposition ≡ active
      → (slot_at (after.handles q).kind (after.handles q).tenant_id after).current ≡ some q
  unfolding release
  is_held q lt e = ground (
    arith,
    eq_iff (s.handles p).tenant_id (s.handles p).tenant_id,
    eq_iff (s.handles q).tenant_id (s.handles p).tenant_id,
    v.holds (s.handles p).kind (s.handles p).tenant_id p,
    v.is_held q,
  )

  has_slot :
      (q : ℕ)
      → q < after.next_handle
      → after.slots (after.handles q).kind (after.handles q).tenant_id ≢ none
  unfolding release
  has_slot q lt = ground (
    arith,
    eq_iff (s.handles p).tenant_id (s.handles p).tenant_id,
    eq_iff (s.handles q).tenant_id (s.handles p).tenant_id,
    v.has_slot q,
    v.has_slot p,
  )

  below :
      (q : ℕ)
      → q < after.next_handle
      → (after.handles q).fencing_token.value
        < (slot_at (after.handles q).kind (after.handles q).tenant_id after).next_fence
  unfolding release
  below q lt = ground (
    arith,
    eq_iff (s.handles p).tenant_id (s.handles p).tenant_id,
    eq_iff (s.handles q).tenant_id (s.handles p).tenant_id,
    v.below q,
    v.below p,
  )

  increasing :
      (q r : ℕ)
      → q < r
      → r < after.next_handle
      → (after.handles q).kind ≡ (after.handles r).kind
      → (after.handles q).tenant_id ≡ (after.handles r).tenant_id
      → (after.handles q).fencing_token.value < (after.handles r).fencing_token.value
  unfolding release
  increasing q r lt bound kinds tenants = ground (
    arith,
    eq_iff (s.handles p).tenant_id (s.handles p).tenant_id,
    eq_iff (s.handles q).tenant_id (s.handles p).tenant_id,
    v.increasing q r,
  )

  pub release-IsValid : IsValid after
  release-IsValid = record {
    fence_pos = fence_pos;
    holds = holds;
    is_held = is_held;
    has_slot = has_slot;
    below = below;
    increasing = increasing;
  }
