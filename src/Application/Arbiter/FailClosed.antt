-- ===== src/Application/Arbiter/FailClosed.antt =====
-- application/decision.py: an acquisition that raises leaves both leases as it found them.
use arena_hero_agent.Prelude.{
  ℕ, ◌<◌, ◌≡◌, ◌≢◌, refl, ◌∙◌, true, ◌&&◌, Option, none, some, str_eq, eq_iff, arith, if◌then◌else◌,
}
use arena_hero_agent.Prelude.Exceptions.{Exception, ok, raise, ◌>>◌}
use arena_hero_agent.Domain.ValueObjects.{TenantId, DecisionId, Generation, DeadlineBudget}
use arena_hero_agent.Runtime.Leases.{
  Kind, decision, writer, same_kind, Coordinator, acquire, issue, release,
}
use arena_hero_agent.Runtime.Leases.Invariant.{IsValid}
use arena_hero_agent.Runtime.Leases.Run.{Reach, next, releasing, Persists, Reach-Persists}
use arena_hero_agent.Runtime.Leases.Lifecycle.{holder}

same_kind_lem : (a b : Kind) → same_kind a b ≡ true → a ≡ b
same_kind_lem decision decision e = refl
same_kind_lem writer writer e = refl
same_kind_lem decision writer e = cc
same_kind_lem writer decision e = cc

-- Each slot has the same holder.
abbrev pub SameHolders : Coordinator → Coordinator → Type 0
SameHolders s s' = (k : Kind) (t : TenantId) → holder k t s' ≡ holder k t s

-- `p` has been acquired for the slot of a tenant, which was free; the other slots are as they were.
pub record Acquired (kind : Kind) (tenant : TenantId) (p : ℕ) (s s' : Coordinator) : Type 0 where
  pub held : holder kind tenant s' ≡ some p
  pub others :
      (k : Kind) (t : TenantId)
      → holder k t s ≡ (if same_kind k kind && str_eq t tenant then none else holder k t s')
  pub issued : p < s'.next_handle
  pub kept_kind : (s'.handles p).kind ≡ kind
  pub kept_tenant : (s'.handles p).tenant_id ≡ tenant

module _ (kind : Kind) (tenant : TenantId) (g : Generation) (d : Option DecisionId)
    (b : DeadlineBudget) (now : ℕ) (s : Coordinator) where
  pub acquire_refused :
      (acquire kind tenant g d b now s).0 ≡ ok none
      → SameHolders s (acquire kind tenant g d b now s).1
  unfolding acquire issue
  acquire_refused e k t = ground (arith, eq_iff t tenant, same_kind_lem k kind)

  pub acquire_granted :
      {p : ℕ}
      → IsValid s
      → (acquire kind tenant g d b now s).0 ≡ ok (some p)
      → Acquired kind tenant p s (acquire kind tenant g d b now s).1
  unfolding acquire issue
  acquire_granted {p} v e = record {
    held = ground (arith, eq_iff tenant tenant);
    others = λ k t. ground (arith, eq_iff t tenant, same_kind_lem k kind);
    issued = ground arith;
    kept_kind = ground arith;
    kept_tenant = ground arith;
  }

  pub acquire_never_raises :
      IsValid s → (e : Exception) → (acquire kind tenant g d b now s).0 ≢ raise e
  unfolding acquire issue
  acquire_never_raises v x e = ground (arith, v.fence_pos kind tenant)

pub release_undoes :
    (kind : Kind) (tenant : TenantId) (p : ℕ) (s s' : Coordinator)
    → Acquired kind tenant p s s'
    → ((release p s').0 ≡ ok tt) × SameHolders s (release p s').1
unfolding release
release_undoes kind tenant p s s' a = (
  ground (arith, a.held, a.kept_kind, a.kept_tenant),
  λ k t. ground (
    arith,
    a.held,
    a.kept_kind,
    a.kept_tenant,
    a.others k t,
    eq_iff t tenant,
    same_kind_lem k kind,
  ),
)

-- What is acquired stays so while the holders stay and the handle persists.
pub Acquired-keeps :
    (kind : Kind) (tenant : TenantId) (p : ℕ) (s s' s'' : Coordinator)
    → Acquired kind tenant p s s'
    → SameHolders s' s''
    → Persists s' s'' p
    → Acquired kind tenant p s s''
Acquired-keeps kind tenant p s s' s'' a same kept = record {
  held = same kind tenant ∙ a.held;
  others = λ k t. rw (same k t) (a.others k t);
  issued = omega (arith, a.issued, kept.issued);
  kept_kind = kept.kind ∙ a.kept_kind;
  kept_tenant = kept.tenant ∙ a.kept_tenant;
}

-- Both leases of a ticket are acquired, one after the other, and then given back.
module _ (tenant : TenantId) (w d : ℕ) (s s' s'' : Coordinator) (a : Acquired writer tenant w s s')
    (b : Acquired decision tenant d s' s'') (run : Reach s' s'') where
  pub both_undone :
      let first = release d s'' in
      let second = release w first.1 in ((second.0 >> first.0) ≡ ok tt) × SameHolders s second.1
  both_undone =
      let (gave, same) = release_undoes decision tenant d s' s'' b in
      let kept = Reach-Persists w (next run (releasing d b.issued)) a.issued in
      let (gave', same') =
        release_undoes writer tenant w s (release d s'').1
          (Acquired-keeps writer tenant w s s' _ a same kept) in
      (rw (gave', gave), same')
