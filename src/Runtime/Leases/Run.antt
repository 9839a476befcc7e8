-- ===== src/Runtime/Leases/Run.antt =====
-- Runs of the coordinator: any sequence of the public coroutines, with any arguments and clock
-- readings. `renew` and `release` are called on handles that the coordinator has issued.
use arena_hero_agent.Prelude.{ℕ, ◌≤◌, ◌<◌, ◌≡◌, ◌≢◌, arith}
use arena_hero_agent.Domain.ValueObjects.{
  TenantId, DecisionId, Generation, FencingToken, DeadlineBudget,
}
use arena_hero_agent.Runtime.Leases.{
  active, Coordinator, acquire_decision, acquire_writer, replace_decision, replace_writer, renew,
  release,
}
use arena_hero_agent.Runtime.Leases.Invariant.{IsValid}
use arena_hero_agent.Runtime.Leases.Acquire.{acquire-IsValid}
use arena_hero_agent.Runtime.Leases.Replace.{replace-IsValid}
use arena_hero_agent.Runtime.Leases.Renew.{renew-IsValid}
use arena_hero_agent.Runtime.Leases.Release.{release-IsValid}

pub data Step (s : Coordinator) : Coordinator → Type 0 where
  acquiring_decision :
      (t : TenantId) (g : Generation) (d : DecisionId) (b : DeadlineBudget) (now : ℕ)
      → Step s (acquire_decision t g d b now s).1
  acquiring_writer :
      (t : TenantId) (g : Generation) (b : DeadlineBudget) (now : ℕ)
      → Step s (acquire_writer t g b now s).1
  replacing_decision :
      (t : TenantId) (g : Generation) (d : DecisionId) (expected : FencingToken)
      (b : DeadlineBudget) (now now' : ℕ)
      → Step s (replace_decision t g d expected b now now' s).1
  replacing_writer :
      (t : TenantId) (g : Generation) (expected : FencingToken) (b : DeadlineBudget) (now now' : ℕ)
      → Step s (replace_writer t g expected b now now' s).1
  renewing :
      (p : ℕ) (b : DeadlineBudget) (now now' : ℕ)
      → p < s.next_handle
      → Step s (renew p b now now' s).1
  releasing : (p : ℕ) → p < s.next_handle → Step s (release p s).1

pub data Reach (s : Coordinator) : Coordinator → Type 0 where
  here : Reach s s
  next : {t u : Coordinator} → Reach s t → Step t u → Reach s u

Step-IsValid : {s s' : Coordinator} → Step s s' → IsValid s → IsValid s'
unfolding acquire_decision acquire_writer replace_decision replace_writer
Step-IsValid {s} (acquiring_decision t g d b now) v = acquire-IsValid _ t g _ b now s v
Step-IsValid {s} (acquiring_writer t g b now) v = acquire-IsValid _ t g _ b now s v
Step-IsValid {s} (replacing_decision t g d x b now now') v =
    replace-IsValid _ t g _ x b now now' s v
Step-IsValid {s} (replacing_writer t g x b now now') v = replace-IsValid _ t g _ x b now now' s v
Step-IsValid {s} (renewing p b now now' lt) v = renew-IsValid p b now now' s v
Step-IsValid {s} (releasing p lt) v = release-IsValid p s v

pub Reach-IsValid : {s s' : Coordinator} → Reach s s' → IsValid s → IsValid s'
Reach-IsValid here v = v
Reach-IsValid (next r st) v = Step-IsValid st (Reach-IsValid r v)

-- What no operation changes in a handle that has been issued, and what it can change only one way.
pub record Persists (s s' : Coordinator) (p : ℕ) : Type 0 where
  pub issued : s.next_handle ≤ s'.next_handle
  pub kind : (s'.handles p).kind ≡ (s.handles p).kind
  pub tenant : (s'.handles p).tenant_id ≡ (s.handles p).tenant_id
  pub fence : (s'.handles p).fencing_token ≡ (s.handles p).fencing_token
  pub dead : (s.handles p).disposition ≢ active → (s'.handles p).disposition ≢ active

Step-Persists : {s s' : Coordinator} (p : ℕ) → Step s s' → p < s.next_handle → Persists s s' p
unfolding acquire_decision acquire_writer replace_decision replace_writer renew release
Step-Persists {s} p (acquiring_decision t g d b now) lt = ground arith
Step-Persists {s} p (acquiring_writer t g b now) lt = ground arith
Step-Persists {s} p (replacing_decision t g d x b now now') lt = ground arith
Step-Persists {s} p (replacing_writer t g x b now now') lt = ground arith
Step-Persists {s} p (renewing q b now now' bound) lt = ground arith
Step-Persists {s} p (releasing q bound) lt = ground arith

pub Reach-Persists : {s s' : Coordinator} (p : ℕ) → Reach s s' → p < s.next_handle → Persists s s' p
Reach-Persists p here lt = ground arith
Reach-Persists p (next r st) lt =
    let before = Reach-Persists p r lt in
    let after = Step-Persists p st (omega arith) in ground arith
