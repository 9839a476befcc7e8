-- ===== src/Runtime/Leases/Exclusion.antt =====
-- Mutual exclusion and fencing, over every run of a fresh coordinator.
use arena_hero_agent.Prelude.{ℕ, ◌<◌, ◌≡◌, ◌≢◌, true, arith}
use arena_hero_agent.Prelude.Exceptions.{ok}
use arena_hero_agent.Domain.ValueObjects.{supersedes}
use arena_hero_agent.Runtime.Leases.{active, Coordinator, new_coordinator, disposition}
use arena_hero_agent.Runtime.Leases.Invariant.{new_coordinator-IsValid}
use arena_hero_agent.Runtime.Leases.Run.{Reach, Reach-IsValid, Reach-Persists}

disposition-active :
    (p now : ℕ) (s : Coordinator)
    → disposition p now s ≡ active
    → (s.handles p).disposition ≡ active
unfolding disposition
disposition-active p now s e = ground arith

-- In every state that a run of a fresh coordinator reaches, two issued handles of one kind and one
-- tenant that both read as active, each at its own clock reading, are the same handle.
pub active_handle_unique :
    (duration : ℕ) {start s : Coordinator} (p q now now' : ℕ)
    → new_coordinator duration ≡ ok start
    → Reach start s
    → p < s.next_handle
    → q < s.next_handle
    → (s.handles p).kind ≡ (s.handles q).kind
    → (s.handles p).tenant_id ≡ (s.handles q).tenant_id
    → disposition p now s ≡ active
    → disposition q now' s ≡ active
    → p ≡ q
active_handle_unique duration {start} {s} p q now now' new run lp lq kinds tenants ap aq =
    let v = Reach-IsValid run (new_coordinator-IsValid duration start new) in
    ground (
      arith,
      v.is_held p lp (disposition-active p now s ap),
      v.is_held q lq (disposition-active q now' s aq),
    )

-- In every state that a run of a fresh coordinator reaches, of two handles of one kind and one
-- tenant the one issued later carries a fencing token that supersedes the other's.
pub fencing_tokens_increase :
    (duration : ℕ) {start s : Coordinator} (p q : ℕ)
    → new_coordinator duration ≡ ok start
    → Reach start s
    → p < q
    → q < s.next_handle
    → (s.handles p).kind ≡ (s.handles q).kind
    → (s.handles p).tenant_id ≡ (s.handles q).tenant_id
    → supersedes (s.handles q).fencing_token (s.handles p).fencing_token ≡ true
fencing_tokens_increase duration {start} {s} p q new run lt bound kinds tenants =
    let v = Reach-IsValid run (new_coordinator-IsValid duration start new) in
    ground (arith, v.increasing p q lt bound kinds tenants)

-- A handle that has been released or replaced never reads as active again, and keeps its tenant,
-- kind and fencing token, whatever operations follow.
pub dead_handle_stays_dead :
    {s s' : Coordinator} (p now : ℕ)
    → Reach s s'
    → p < s.next_handle
    → (s.handles p).disposition ≢ active
    → (disposition p now s' ≢ active)
      × ((s'.handles p).tenant_id ≡ (s.handles p).tenant_id)
      × ((s'.handles p).kind ≡ (s.handles p).kind)
      × ((s'.handles p).fencing_token ≡ (s.handles p).fencing_token)
dead_handle_stays_dead {s} {s'} p now run lt dead =
    let kept = Reach-Persists p run lt in
    ground (arith, disposition-active p now s', kept.dead dead)
