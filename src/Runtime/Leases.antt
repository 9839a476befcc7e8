-- ===== src/Runtime/Leases.antt =====
-- adapters/runtime/leases.py and the dispositions of ports/leases.py: the in-process coordinator
-- of fenced leases. Handles are objects that the coordinator and its clients share, so they live
-- in a store under references; every reading of the clock is an argument. Each coroutine runs its
-- state change under one lock, so a run of the program is a sequence of whole operations.
pub mod Invariant
mod Acquire
mod Replace
mod Renew
mod Release
pub mod Run
pub mod Exclusion
pub mod Lifecycle
mod Tests
use arena_hero_agent.Prelude.{
  ℕ, ◌+◌, Bool, true, false, ◌&&◌, Option, none, some, ltb, leb, ◌==◌, if◌then◌else◌, str_eq,
}
use arena_hero_agent.Prelude.Exceptions.{Result, ok, raise, value_error, key_error}
use arena_hero_agent.Domain.ValueObjects.{
  TenantId, DecisionId, Generation, FencingToken, DeadlineBudget, fencing_token, exhausted,
}

pub data LeaseDisposition : Type 0 where
  active expired released replaced : LeaseDisposition

-- The `kind` of a handle, which says in which of the two dicts its slot stands.
pub data Kind : Type 0 where
  decision writer : Kind

-- `_MemoryLeaseHandle` with the fields that its two subclasses add.
pub record Handle : Type 0 where
  pub kind : Kind
  pub tenant_id : TenantId
  pub fencing_token : FencingToken
  pub expires_at_ns : ℕ
  pub disposition : LeaseDisposition
  pub generation : Generation
  pub decision_id : Option DecisionId

-- `_LeaseSlot`; the current holder is a reference.
pub record Slot : Type 0 where
  pub next_fence : ℕ
  pub current : Option ℕ

-- The coordinator and the store of the handles that it has issued: those below `next_handle`.
-- `slots` is `_decision_slots` and `_writer_slots`, by the kind.
pub record Coordinator : Type 0 where
  pub lease_duration_ns : ℕ
  pub slots : Kind → TenantId → Option Slot
  pub next_handle : ℕ
  pub handles : ℕ → Handle

abbrev pub new_slot : Slot
new_slot = record { next_fence = 1; current = none }

-- A place of the store that holds no object yet; it is never read.
abbrev pub no_handle : Handle
no_handle = record {
  kind = decision;
  tenant_id = "";
  fencing_token = record { value = 0 };
  expires_at_ns = 0;
  disposition = released;
  generation = record { value = 0 };
  decision_id = none;
}

-- `MemoryLeaseCoordinator.__init__`
unfoldable pub new_coordinator : ℕ → Result Coordinator
new_coordinator lease_duration_ns =
    if ltb lease_duration_ns 1
    then raise value_error
    else ok (record {
      lease_duration_ns = lease_duration_ns;
      slots = λ k t. none;
      next_handle = 0;
      handles = λ p. no_handle;
    })

-- The slot that `setdefault(tenant_id, _LeaseSlot())` returns.
abbrev pub slot_at : Kind → TenantId → Coordinator → Slot
slot_at kind tenant_id s = elim (s.slots kind tenant_id) [ none ↦ new_slot | some slot ↦ slot ]

abbrev pub same_kind : Kind → Kind → Bool
same_kind decision decision = true
same_kind writer writer = true
same_kind _ _ = false

abbrev pub put_slot : Kind → TenantId → Slot → Coordinator → Coordinator
put_slot kind tenant_id slot s = record s {
  slots = λ k t. if same_kind k kind && str_eq t tenant_id then some slot else s.slots k t;
}

abbrev pub put_handle : ℕ → Handle → Coordinator → Coordinator
put_handle p h s = record s { handles = λ q. if q == p then h else s.handles q }

-- `_issue_decision` and `_issue_writer`
unfoldable pub issue :
    Kind
    → Slot
    → TenantId
    → Generation
    → Option DecisionId
    → (now : ℕ) → Coordinator
    → Result (Option ℕ) × Coordinator
issue kind slot tenant_id generation decision_id now s = elim (fencing_token slot.next_fence) [
  | raise e ↦ (raise e, s)
  | ok token ↦
      let handle : Handle = record {
        kind = kind;
        tenant_id = tenant_id;
        fencing_token = token;
        expires_at_ns = now + s.lease_duration_ns;
        disposition = active;
        generation = generation;
        decision_id = decision_id;
      } in
      let slot' : Slot = record {
        next_fence = slot.next_fence + 1;
        current = some s.next_handle;
      } in
      let s' : Coordinator = put_slot kind tenant_id slot' (put_handle s.next_handle handle s) in
      (ok (some s.next_handle), record s' { next_handle = s.next_handle + 1 })
]

abbrev pub expired_at : ℕ → Handle → Bool
expired_at now h = leb h.expires_at_ns now

-- The bodies of `acquire_decision` and `acquire_writer`, which differ in the dict that they use.
unfoldable pub acquire :
    Kind
    → TenantId
    → Generation
    → Option DecisionId
    → DeadlineBudget
    → (now : ℕ) → Coordinator
    → Result (Option ℕ) × Coordinator
unfolding issue
acquire kind tenant_id generation decision_id budget now s =
    if exhausted budget
    then (ok none, s)
    else let slot = slot_at kind tenant_id s in
      let s' = put_slot kind tenant_id slot s in
      elim slot.current [
        | some _ ↦ (ok none, s')
        | none ↦ issue kind slot tenant_id generation decision_id now s'
      ]

unfoldable pub acquire_decision :
    TenantId
    → Generation
    → DecisionId
    → DeadlineBudget
    → (now : ℕ) → Coordinator
    → Result (Option ℕ) × Coordinator
unfolding acquire
acquire_decision tenant_id generation decision_id =
    acquire decision tenant_id generation (some decision_id)

unfoldable pub acquire_writer :
    TenantId
    → Generation
    → DeadlineBudget
    → (now : ℕ) → Coordinator
    → Result (Option ℕ) × Coordinator
unfolding acquire
acquire_writer tenant_id generation = acquire writer tenant_id generation none

-- `_replacement_is_authorized`, of a slot that has a holder
abbrev pub replacement_is_authorized : Handle → FencingToken → (now : ℕ) → Bool
replacement_is_authorized current expected now =
    (current.fencing_token.value == expected.value) && expired_at now current

-- The bodies of `replace_decision` and `replace_writer`. The clock is read once for the test and
-- once for the new expiry.
unfoldable pub replace :
    Kind
    → TenantId
    → Generation
    → Option DecisionId
    → (expected : FencingToken) → DeadlineBudget
    → (now now' : ℕ) → Coordinator
    → Result (Option ℕ) × Coordinator
unfolding issue
replace kind tenant_id generation decision_id expected budget now now' s =
    if exhausted budget
    then (ok none, s)
    else let slot = slot_at kind tenant_id s in
      let s' = put_slot kind tenant_id slot s in
      elim slot.current [
        | none ↦ (ok none, s')
        | some p ↦
            if replacement_is_authorized (s.handles p) expected now
            then issue kind slot tenant_id generation decision_id now'
                (put_handle p (record (s.handles p) { disposition = replaced }) s')
            else (ok none, s')
      ]

unfoldable pub replace_decision :
    TenantId
    → Generation
    → DecisionId
    → (expected : FencingToken) → DeadlineBudget
    → (now now' : ℕ) → Coordinator
    → Result (Option ℕ) × Coordinator
unfolding replace
replace_decision tenant_id generation decision_id =
    replace decision tenant_id generation (some decision_id)

unfoldable pub replace_writer :
    TenantId
    → Generation
    → (expected : FencingToken) → DeadlineBudget
    → (now now' : ℕ) → Coordinator
    → Result (Option ℕ) × Coordinator
unfolding replace
replace_writer tenant_id generation = replace writer tenant_id generation none

-- `_disposition`
unfoldable pub disposition : ℕ → (now : ℕ) → Coordinator → LeaseDisposition
disposition p now s = elim (s.handles p).disposition [
  | active ↦ if expired_at now (s.handles p) then expired else active
  | other ↦ other
]

abbrev pub is_current : ℕ → Slot → Bool
is_current p slot = elim slot.current [ none ↦ false | some q ↦ q == p ]

-- `_renew`; the clock is read once for the test and once for the new expiry.
unfoldable pub renew : ℕ → DeadlineBudget → (now now' : ℕ) → Coordinator → Result Bool × Coordinator
renew p budget now now' s =
    if exhausted budget
    then (ok false, s)
    else let h = s.handles p in
      elim (s.slots h.kind h.tenant_id) [
        | none ↦ (raise key_error, s)
        | some slot ↦
            if is_current p slot
            then if expired_at now h then (ok false, s) else (
              ok true,
              put_handle p (record h { expires_at_ns = now' + s.lease_duration_ns }) s,
            )
            else (ok false, put_handle p (record h { disposition = replaced }) s)
      ]

-- `_release`
unfoldable pub release : ℕ → Coordinator → Result (Unit {0}) × Coordinator
release p s =
    let h = s.handles p in
    elim (s.slots h.kind h.tenant_id) [
      | none ↦ (raise key_error, s)
      | some slot ↦
          if is_current p slot
          then (
            ok tt,
            put_handle p (record h { disposition = released })
                (put_slot h.kind h.tenant_id (record slot { current = none }) s),
          )
          else (ok tt, s)
    ]
