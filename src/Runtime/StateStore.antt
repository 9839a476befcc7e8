-- ===== src/Runtime/StateStore.antt =====
-- MemoryTenantStateStore of adapters/runtime/state.py: snapshots by tenant, written by
-- compare-and-set under a writer lease. A state is opaque to the store, which reads its owner and
-- its digest and compares states.
pub mod Generations
mod Tests
use arena_hero_agent.Prelude.{
  ℕ, ◌+◌, Bool, true, false, ◌&&◌, ◌||◌, not, Option, none, some, ◌==◌, ltb, if◌then◌else◌, String,
  str_eq,
}
use arena_hero_agent.Prelude.Dict.{Dict, lookup, insert}
use arena_hero_agent.Domain.ValueObjects.{TenantId, Generation, next_generation}
use arena_hero_agent.Runtime.Leases.{
  LeaseDisposition, active, expired, released, replaced, Coordinator, disposition,
}

-- What the store reads of a state, `==` on states among it.
pub record StateView (State : Type 0) : Type 0 where
  pub owner : State → TenantId
  pub digest : State → String
  pub equal : State → State → Bool

-- What the store reads of a writer lease: its fields, and its disposition at the moment of reading.
pub record LeaseView : Type 0 where
  pub tenant_id : TenantId
  pub generation : Generation
  pub disposition : LeaseDisposition

-- A coordinator's handle, seen at a clock reading.
abbrev pub lease_view : ℕ → ℕ → Coordinator → LeaseView
lease_view p now s = record {
  tenant_id = (s.handles p).tenant_id;
  generation = (s.handles p).generation;
  disposition = disposition p now s;
}

abbrev pub is_active : LeaseDisposition → Bool
is_active active = true
is_active expired = false
is_active released = false
is_active replaced = false

abbrev pub eq_generation : Generation → Generation → Bool
eq_generation a b = a.value == b.value

pub record Snapshot (State : Type 0) : Type 0 where
  pub generation : Generation
  pub state_digest : String
  pub state : State

abbrev pub States : Type 0 → Type 0
States State = Dict (Snapshot State)

module _ {State : Type 0} (view : StateView State) where
  -- The tests of `compare_and_set` before it takes the lock.
  unfoldable pub cas_admitted :
      TenantId → (expected next : Generation) → String → State → LeaseView → Bool
  cas_admitted tenant_id expected next state_digest state lease = not (
      not (str_eq lease.tenant_id tenant_id)
      || not (eq_generation lease.generation expected)
      || not (is_active lease.disposition)
      || not (eq_generation next (next_generation expected))
      || not (str_eq (view.owner state) tenant_id)
      || not (str_eq (view.digest state) state_digest))

  -- What `compare_and_set` does with the lock held.
  unfoldable pub cas_locked :
      TenantId → (expected next : Generation) → String → State → States State → Bool × States State
  unfolding lookup insert
  cas_locked tenant_id expected next state_digest state states =
      let written =
        insert tenant_id (record { generation = next; state_digest = state_digest; state = state })
          states in
      elim (lookup tenant_id states) [
        | some current ↦
            if not (eq_generation current.generation expected)
            then (false, states)
            else (true, written)
        | none ↦
            if not (eq_generation expected (record { value = 0 }))
            then (false, states)
            else (true, written)
      ]

  unfoldable pub compare_and_set :
      TenantId
      → (expected next : Generation) → String
      → State
      → LeaseView
      → States State
      → Bool × States State
  unfolding cas_admitted cas_locked
  compare_and_set tenant_id expected next state_digest state lease states =
      if not (cas_admitted tenant_id expected next state_digest state lease)
      then (false, states)
      else cas_locked tenant_id expected next state_digest state states

  -- The tests of `restore` before it takes the lock.
  unfoldable pub restore_admitted : TenantId → Generation → String → State → LeaseView → Bool
  restore_admitted tenant_id generation state_digest state lease = not (
      not (str_eq lease.tenant_id tenant_id)
      || not (eq_generation lease.generation generation)
      || not (is_active lease.disposition)
      || not (str_eq (view.owner state) tenant_id)
      || not (str_eq (view.digest state) state_digest))

  unfoldable pub restore_locked :
      TenantId → Generation → String → State → States State → Bool × States State
  unfolding lookup insert
  restore_locked tenant_id generation state_digest state states =
      let written =
        insert tenant_id
          (record { generation = generation; state_digest = state_digest; state = state }) states in
      elim (lookup tenant_id states) [
        | none ↦ (true, written)
        | some current ↦
            if ltb generation.value current.generation.value
            then (false, states)
            else if eq_generation current.generation generation
            then (
              str_eq current.state_digest state_digest && view.equal current.state state,
              states,
            )
            else (true, written)
      ]

  unfoldable pub restore :
      TenantId → Generation → String → State → LeaseView → States State → Bool × States State
  unfolding restore_admitted restore_locked
  restore tenant_id generation state_digest state lease states =
      if not (restore_admitted tenant_id generation state_digest state lease)
      then (false, states)
      else restore_locked tenant_id generation state_digest state states

module _ {State : Type 0} where
  -- `load`
  unfoldable pub load : TenantId → States State → Option (Snapshot State)
  unfolding lookup
  load tenant_id states = lookup tenant_id states
