-- ===== src/Runtime/Leases/Lifecycle.antt =====
-- What each operation answers, on every branch, and what it leaves in the coordinator.
use arena_hero_agent.Prelude.{
  ℕ, ◌+◌, ◌<◌, ◌≡◌, ◌≢◌, Bool, true, false, ◌&&◌, not, Option, none, some, arith, eq_iff, leb, ◌==◌,
  if◌then◌else◌,
}
use arena_hero_agent.Prelude.Exceptions.{ok}
use arena_hero_agent.Domain.ValueObjects.{
  TenantId, DecisionId, Generation, FencingToken, DeadlineBudget, exhausted, supersedes,
}
use arena_hero_agent.Runtime.Leases.{
  active, replaced, released, expired, Kind, Coordinator, slot_at, disposition, acquire, replace,
  renew, release, expired_at, is_current,
}
use arena_hero_agent.Runtime.Leases.Invariant.{IsValid}

-- The holder of the slot of a tenant.
abbrev pub holder : Kind → TenantId → Coordinator → Option ℕ
holder k t s = (slot_at k t s).current

-- Whether an acquisition is granted.
abbrev pub grants : Kind → TenantId → DeadlineBudget → Coordinator → Bool
grants k t b s = not (exhausted b) && elim (holder k t s) [ none ↦ true | some _ ↦ false ]

-- On a valid coordinator an acquisition never raises. It grants a lease exactly when the budget is
-- not exhausted and the tenant's slot has no holder, so it never takes over a lease, expired or
-- not; the granted handle is then the holder, active until the lease duration has passed. Else the
-- holder and the dispositions stay as they were.
pub acquire_lem :
    (k : Kind) (t : TenantId) (g : Generation) (d : Option DecisionId) (b : DeadlineBudget)
    (now later : ℕ) (s : Coordinator)
    → IsValid s
    → let (answer, s') = acquire k t g d b now s in
      (answer ≡ ok (if grants k t b s then some s.next_handle else none))
      × (holder k t s' ≡ (if grants k t b s then some s.next_handle else holder k t s))
      × (disposition s.next_handle later s' ≡ (
          if grants k t b s
          then if leb (now + s.lease_duration_ns) later then expired else active
          else disposition s.next_handle later s))
unfolding acquire disposition
acquire_lem k t g d b now later s v = ground (arith, eq_iff t t, v.fence_pos k t)

-- On a valid coordinator a replacement never raises. It grants a lease exactly when the budget is
-- not exhausted, the slot has a holder, that holder has expired at the first clock reading and the
-- caller presents its exact fencing token.
pub replace_lem :
    (k : Kind) (t : TenantId) (g : Generation) (d : Option DecisionId) (x : FencingToken)
    (b : DeadlineBudget) (now now' : ℕ) (s : Coordinator)
    → IsValid s
    → (replace k t g d x b now now' s).0
      ≡ ok (
          if exhausted b then none else elim (holder k t s) [
            | none ↦ none
            | some p ↦
                if (s.handles p).fencing_token.value == x.value
                  && leb (s.handles p).expires_at_ns now
                then some s.next_handle
                else none
          ])
unfolding replace
replace_lem k t g d x b now now' s v = ground (arith, eq_iff t t, v.fence_pos k t)

-- On a valid coordinator a replacement that grants a lease marks the old holder as replaced, makes
-- the new handle the holder, and gives it a fencing token that supersedes the old holder's.
pub replace-supersedes :
    (k : Kind) (t : TenantId) (g : Generation) (d : Option DecisionId) (x : FencingToken)
    (b : DeadlineBudget) (now now' later : ℕ) (s : Coordinator) (p q : ℕ)
    → IsValid s
    → holder k t s ≡ some p
    → (replace k t g d x b now now' s).0 ≡ ok (some q)
    → let s' = (replace k t g d x b now now' s).1 in
      (disposition p later s' ≡ replaced)
      × (holder k t s' ≡ some q)
      × (p ≢ q)
      × (supersedes (s'.handles q).fencing_token (s'.handles p).fencing_token ≡ true)
unfolding replace disposition
replace-supersedes k t g d x b now now' later s p q v held granted =
    ground (arith, eq_iff t t, v.fence_pos k t, v.holds k t p, v.below p)

-- A renewal of an issued handle never raises on a valid coordinator. It succeeds exactly when the
-- budget is not exhausted and the handle holds its slot and has not expired; it then reads as
-- active until the lease duration has passed from the second clock reading. A handle that does not
-- hold its slot reads as replaced after a renewal with a budget; in the other cases its disposition
-- is as it was.
pub renew_lem :
    (p : ℕ) (b : DeadlineBudget) (now now' later : ℕ) (s : Coordinator)
    → IsValid s
    → p < s.next_handle
    → let h = s.handles p in
      let held = is_current p (slot_at h.kind h.tenant_id s) in
      let (answer, s') = renew p b now now' s in
      (answer ≡ ok (not (exhausted b) && held && not (expired_at now h)))
      × (disposition p later s' ≡ (
          if exhausted b
          then disposition p later s
          else if not held
          then replaced
          else if expired_at now h
          then disposition p later s
          else if leb (now' + s.lease_duration_ns) later
          then expired
          else active))
unfolding renew disposition
renew_lem p b now now' later s v lt =
    ground (arith, v.has_slot p lt, v.holds (s.handles p).kind (s.handles p).tenant_id p)

-- On a valid coordinator a release of an active issued handle frees its slot and marks it as
-- released, a second release changes nothing, and the next acquisition by the tenant with a budget
-- that is not exhausted is granted a token that supersedes the released one.
pub release_frees :
    (p : ℕ) (g : Generation) (d : Option DecisionId) (b : DeadlineBudget) (now later : ℕ)
    (s : Coordinator)
    → IsValid s
    → p < s.next_handle
    → disposition p now s ≡ active
    → exhausted b ≡ false
    → let h = s.handles p in
      let s' = (release p s).1 in
      let (answer, s'') = acquire h.kind h.tenant_id g d b now s' in
      ((release p s).0 ≡ ok tt)
      × (disposition p later s' ≡ released)
      × (release p s' ≡ (ok tt, s'))
      × (answer ≡ ok (some s.next_handle))
      × (supersedes (s''.handles s.next_handle).fencing_token h.fencing_token ≡ true)
unfolding release disposition acquire
release_frees p g d b now later s v lt e some_budget = (
  ground (arith, v.is_held p lt),
  ground (arith, v.is_held p lt),
  ground (arith, v.is_held p lt, eq_iff (s.handles p).tenant_id (s.handles p).tenant_id),
  ground (
    arith,
    v.is_held p lt,
    v.fence_pos (s.handles p).kind (s.handles p).tenant_id,
    eq_iff (s.handles p).tenant_id (s.handles p).tenant_id,
  ),
  ground (
    arith,
    v.is_held p lt,
    v.below p lt,
    v.fence_pos (s.handles p).kind (s.handles p).tenant_id,
    eq_iff (s.handles p).tenant_id (s.handles p).tenant_id,
  ),
)

-- On a valid coordinator a renewal, with a budget, of an issued handle that has been released or
-- replaced returns false, and the handle then reads as replaced.
pub renew_marks_replaced :
    (p : ℕ) (b : DeadlineBudget) (now now' later : ℕ) (s : Coordinator)
    → IsValid s
    → p < s.next_handle
    → exhausted b ≡ false
    → (s.handles p).disposition ≢ active
    → ((renew p b now now' s).0 ≡ ok false)
      × (disposition p later (renew p b now now' s).1 ≡ replaced)
unfolding renew disposition
renew_marks_replaced p b now now' later s v lt some_budget dead =
    ground (arith, v.has_slot p lt, v.holds (s.handles p).kind (s.handles p).tenant_id p)
