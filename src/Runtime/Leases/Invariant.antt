-- ===== src/Runtime/Leases/Invariant.antt =====
-- The invariant of the lease coordinator.
use arena_hero_agent.Prelude.{ℕ, ◌≤◌, ◌<◌, ◌≡◌, ◌≢◌, none, some, arith}
use arena_hero_agent.Prelude.Exceptions.{ok}
use arena_hero_agent.Domain.ValueObjects.{TenantId}
use arena_hero_agent.Runtime.Leases.{active, Kind, Coordinator, slot_at, new_coordinator}

pub record IsValid (s : Coordinator) : Type 0 where
  pub fence_pos : (k : Kind) (t : TenantId) → 1 ≤ (slot_at k t s).next_fence
  pub holds :
      (k : Kind) (t : TenantId) (p : ℕ)
      → (slot_at k t s).current ≡ some p
      → (p < s.next_handle)
        × ((s.handles p).kind ≡ k)
        × ((s.handles p).tenant_id ≡ t)
        × ((s.handles p).disposition ≡ active)
  pub is_held :
      (p : ℕ)
      → p < s.next_handle
      → (s.handles p).disposition ≡ active
      → (slot_at (s.handles p).kind (s.handles p).tenant_id s).current ≡ some p
  pub has_slot :
      (p : ℕ) → p < s.next_handle → s.slots (s.handles p).kind (s.handles p).tenant_id ≢ none
  pub below :
      (p : ℕ)
      → p < s.next_handle
      → (s.handles p).fencing_token.value
        < (slot_at (s.handles p).kind (s.handles p).tenant_id s).next_fence
  pub increasing :
      (p q : ℕ)
      → p < q
      → q < s.next_handle
      → (s.handles p).kind ≡ (s.handles q).kind
      → (s.handles p).tenant_id ≡ (s.handles q).tenant_id
      → (s.handles p).fencing_token.value < (s.handles q).fencing_token.value

pub new_coordinator-IsValid :
    (duration : ℕ) (s : Coordinator) → new_coordinator duration ≡ ok s → IsValid s
unfolding new_coordinator
new_coordinator-IsValid duration s e = record {
  fence_pos = λ k t. ground arith;
  holds = λ k t p h. ground arith;
  is_held = λ p lt h. ground arith;
  has_slot = λ p lt h. ground arith;
  below = λ p lt. ground arith;
  increasing = λ p q lt bound same_kind same_tenant. ground arith;
}
