-- ===== src/Strategies/RaidQuota/Targets.antt =====
-- strategies/raid_quota.py: the core that `pick_raid_target` picks.
use mathlib.Core.Path.{subst}
use arena_hero_agent.Prelude.{
  ℕ, ◌≤◌, ◌≡◌, refl, sym, Option, none, some, List, [], ◌∷◌, All, ◌⊎◌, inl, inr, arith,
}
use arena_hero_agent.Prelude.Sort.{Among}
use arena_hero_agent.Domain.ValueObjects.{Coordinate}
use arena_hero_agent.Domain.Navigation.{manhattan}
use arena_hero_agent.Strategies.RaidQuota.{StationaryCore, consider, pick_from, pick_raid_target}

module _ (core : Coordinate) (observations distance : ℕ) where
  -- Observed often enough, and near enough.
  abbrev pub Qualifies : StationaryCore → Type 0
  Qualifies o = (observations ≤ o.observations) × (manhattan o.position core ≤ distance)

  -- No nearer than `d` if it qualifies.
  abbrev pub Beyond : ℕ → StationaryCore → Type 0
  Beyond d o = Qualifies o → d ≤ manhattan o.position core

  abbrev Excluded : StationaryCore → Type 0
  Excluded o = ¬ Qualifies o

  -- A qualifying core at the position.
  abbrev pub IsQualified : Coordinate → List StationaryCore → Type 0
  IsQualified p cores = (o : StationaryCore) × Among o cores × Qualifies o × (o.position ≡ p)

  abbrev pub IsTarget : List StationaryCore → Option Coordinate → Type 0
  IsTarget cores none = All Excluded cores
  IsTarget cores (some p) = IsQualified p cores × All (Beyond (manhattan p core)) cores

  -- At most the best distance so far.
  abbrev AtMost : ℕ → Option (Coordinate × ℕ) → Type 0
  AtMost d none = Unit
  AtMost d (some (_, e)) = d ≤ e

  -- The best so far beats the core, if it qualifies.
  abbrev Beaten : Option (Coordinate × ℕ) → StationaryCore → Type 0
  Beaten none o = Excluded o
  Beaten (some (_, e)) o = Beyond e o

  consider_lem :
      (best : Option (Coordinate × ℕ)) (o : StationaryCore)
      → ((consider core observations distance best o ≡ best) × Beaten best o)
        ⊎ ((consider core observations distance best o
              ≡ some (o.position, manhattan o.position core))
            × Qualifies o
            × AtMost (manhattan o.position core) best)
  consider_lem none o = ground arith
  consider_lem (some (p, e)) o = ground arith

  abbrev Picked : Option (Coordinate × ℕ) → List StationaryCore → Option (Coordinate × ℕ) → Type 0
  Picked best cores none = (best ≡ none) × All Excluded cores
  Picked best cores (some (p, d)) =
      ((best ≡ some (p, d)) ⊎ ((manhattan p core ≡ d) × IsQualified p cores))
      × AtMost d best
      × All (Beyond d) cores

  pick_none : (best : Option (Coordinate × ℕ)) → Picked best [] best
  pick_none none = (refl, tt)
  pick_none (some (p, d)) = (inl refl, omega arith, tt)

  -- A core that does not change the best so far.
  Picked-skip :
      (best : Option (Coordinate × ℕ)) (o : StationaryCore) (cores : List StationaryCore)
      (r : Option (Coordinate × ℕ))
      → Beaten best o
      → Picked best cores r
      → Picked best (o ∷ cores) r
  Picked-skip best o cores none beaten (none_yet, excluded) =
      (none_yet, (subst (λ b. Beaten b o) none_yet beaten, excluded))
  Picked-skip none o cores (some (p, d)) beaten (inl same, at_most, beyond) = cc
  Picked-skip none o cores (some (p, d)) beaten (inr (here, (c, among, q, at)), at_most, beyond) =
      (inr (here, (c, inr among, q, at)), tt, ((λ q. absurd (beaten q)), beyond))
  Picked-skip (some (b, e)) o cores (some (p, d)) beaten (inl same, at_most, beyond) =
      (inl same, at_most, ((λ q. omega (arith, beaten q)), beyond))
  Picked-skip (some (b, e)) o cores (some (p, d)) beaten
        (inr (here, (c, among, q, at)), at_most, beyond) =
      (inr (here, (c, inr among, q, at)), at_most, ((λ q. omega (arith, beaten q)), beyond))

  AtMost-trans : (best : Option (Coordinate × ℕ)) (d e : ℕ) → d ≤ e → AtMost e best → AtMost d best
  AtMost-trans none d e h a = tt
  AtMost-trans (some (p, f)) d e h a = omega arith

  -- A core that becomes the best so far.
  Picked-take :
      (best : Option (Coordinate × ℕ)) (o : StationaryCore) (cores : List StationaryCore)
      (r : Option (Coordinate × ℕ))
      → Qualifies o
      → AtMost (manhattan o.position core) best
      → Picked (some (o.position, manhattan o.position core)) cores r
      → Picked best (o ∷ cores) r
  Picked-take best o cores none q a (absent, _) = cc
  Picked-take best o cores (some (p, d)) q a (inl same, at_most, beyond) = (
    inr (ground arith, (o, inl refl, q, ground arith)),
    AtMost-trans best d _ at_most a,
    ((λ _. at_most), beyond),
  )
  Picked-take best o cores (some (p, d)) q a (inr (here, (c, among, other, at)), at_most, beyond) =
      (
        inr (here, (c, inr among, other, at)),
        AtMost-trans best d _ at_most a,
        ((λ _. at_most), beyond),
      )

  pick_from-Picked :
      (best : Option (Coordinate × ℕ)) (cores : List StationaryCore)
      → Picked best cores (pick_from core observations distance best cores)
  unfolding pick_from
  pick_from-Picked best [] = pick_none best
  pick_from-Picked best (o ∷ cores) =
      let next = consider core observations distance best o in
      let r = pick_from core observations distance next cores in
      let ahead = pick_from-Picked next cores in
      elim (consider_lem best o) [
        | inl (same, beaten) ↦
            Picked-skip best o cores r beaten (subst (λ b. Picked b cores r) same ahead)
        | inr (taken, q, a) ↦
            Picked-take best o cores r q a (subst (λ b. Picked b cores r) taken ahead)
      ]

  Picked-IsTarget :
      (cores : List StationaryCore) (r : Option (Coordinate × ℕ))
      → Picked none cores r
      → IsTarget cores (elim r [ none ↦ none | some (p, _) ↦ some p ])
  Picked-IsTarget cores none (_, excluded) = excluded
  Picked-IsTarget cores (some (p, d)) (inl absent, _, _) = cc
  Picked-IsTarget cores (some (p, d)) (inr (here, origin), _, beyond) =
      (origin, subst (λ d. All (Beyond d) cores) (sym here) beyond)

  -- The position that is picked is the one of a core that has been observed often enough and is near
  -- enough, and no other such core is nearer; if none is picked, there is no such core.
  pub pick_raid_target_lem :
      (cores : List StationaryCore)
      → IsTarget cores (pick_raid_target core observations distance cores)
  unfolding pick_raid_target
  pick_raid_target_lem cores =
      Picked-IsTarget cores (pick_from core observations distance none cores)
        (pick_from-Picked none cores)
