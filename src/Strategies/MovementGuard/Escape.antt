-- ===== src/Strategies/MovementGuard/Escape.antt =====
-- strategies/movement_guard.py: the step that `forced_escape_step` returns.
use mathlib.Core.Path.{subst}
use arena_hero_agent.Prelude.{
  ◌≡◌, ◌≢◌, refl, sym, Bool, true, false, Option, none, some, List, [], ◌∷◌, All, ◌⊎◌, inl, inr,
  Bool-cases,
}
use arena_hero_agent.Prelude.Int.{◌-ℤ◌, pos}
use arena_hero_agent.Prelude.Exceptions.{ok, >>=-ok, ok-injective}
use arena_hero_agent.Domain.ValueObjects.{
  Coordinate, eq_coordinate, eq_coordinate_iff, step, Direction,
}
use arena_hero_agent.Domain.Navigation.{mem_cell}
use arena_hero_agent.Strategies.MovementGuard.Home.{
  primary_direction, perpendicular, preferred, Key, key_less, improves, step_key, consider_step,
  choose_step, direction_of, forced_escape_step,
}
use arena_hero_agent.Strategies.MovementGuard.Preference.{
  key_less_trans, key_less_asym, key_less_irrefl, All_mem, names_all, preferred_all, mem_of_all,
}

module _ (origin target : Coordinate) (obstacles : List Coordinate) (perps : List Direction) where
  abbrev key : Direction → Coordinate → Key
  key d next = step_key origin target obstacles perps d next

  -- The step exists and is not blocked.
  abbrev pub IsFree : Direction → Coordinate → Type 0
  IsFree d next = (step origin d (pos 1) ≡ ok next) × (mem_cell next obstacles ≡ false)

  abbrev Beaten : Key → Option (Direction × Key) → Type 0
  Beaten k none = ⊥
  Beaten k (some (_, best)) = key_less k best ≡ false

  -- A direction that has been stepped in, and whose step is no better than the result if it is free.
  abbrev Covered : Option (Direction × Key) → Direction → Type 0
  Covered r d =
      (next : Coordinate) × (step origin d (pos 1) ≡ ok next)
      × (mem_cell next obstacles ≡ false → Beaten (key d next) r)

  abbrev Source : Option (Direction × Key) → Option (Direction × Key) → Type 0
  Source best r =
      (r ≡ best)
      ⊎ ((d : Direction) × (next : Coordinate) × IsFree d next × (r ≡ some (d, key d next)))

  abbrev Improves : Option (Direction × Key) → Option (Direction × Key) → Type 0
  Improves none r = Unit
  Improves (some (_, k)) r = Beaten k r

  improves_lem :
      (best : Option (Direction × Key)) (d : Direction) (next : Coordinate)
      → improves (key d next) best ≡ true
      → Improves best (some (d, key d next))
  improves_lem none d next h = tt
  improves_lem (some (_, k)) d next h = key_less_asym (key d next) k h

  worse_lem :
      (best : Option (Direction × Key)) (d : Direction) (next : Coordinate)
      → improves (key d next) best ≡ false
      → Beaten (key d next) best
  worse_lem none d next h = cc
  worse_lem (some (_, k)) d next h = h

  consider_step_lem :
      (best : Option (Direction × Key)) (d : Direction) (next : Coordinate)
      → ((consider_step origin target obstacles perps best d next ≡ best)
          × (mem_cell next obstacles ≡ false → Beaten (key d next) best))
        ⊎ ((consider_step origin target obstacles perps best d next ≡ some (d, key d next))
            × (mem_cell next obstacles ≡ false)
            × Improves best (some (d, key d next)))
  consider_step_lem best d next = elim (Bool-cases (mem_cell next obstacles)) [
    | inl blocked ↦ inl (rw blocked, λ free. cc)
    | inr free ↦ elim (Bool-cases (improves (key d next) best)) [
      | inl better ↦ inr (rw (free, better), free, improves_lem best d next better)
      | inr worse ↦ inl (rw (free, worse), λ _. worse_lem best d next worse)
    ]
  ]

  -- What the best so far beats, the result beats.
  Beaten-trans :
      (k : Key) (best r : Option (Direction × Key)) → Beaten k best → Improves best r → Beaten k r
  Beaten-trans k none r b i = absurd b
  Beaten-trans k (some (_, j)) none b i = absurd i
  Beaten-trans k (some (_, j)) (some (_, l)) b i = key_less_trans k j l b i

  Improves-trans :
      (best : Option (Direction × Key)) (k : Key) (d : Direction) (r : Option (Direction × Key))
      → Improves best (some (d, k))
      → Beaten k r
      → Improves best r
  Improves-trans none k d r i b = tt
  Improves-trans (some (_, j)) k d none i b = absurd b
  Improves-trans (some (_, j)) k d (some (_, l)) i b = key_less_trans j k l i b

  Improves-refl : (best : Option (Direction × Key)) → Improves best best
  Improves-refl none = tt
  Improves-refl (some (_, k)) = key_less_irrefl k

  abbrev Chooses : Option (Direction × Key) → List Direction → Option (Direction × Key) → Type 0
  Chooses best prefer r = Source best r × Improves best r × All (Covered r) prefer

  choose_step_lem :
      (best : Option (Direction × Key)) (prefer : List Direction) {r : Option (Direction × Key)}
      → choose_step origin target obstacles perps best prefer ≡ ok r
      → Chooses best prefer r
  unfolding choose_step
  choose_step_lem best [] e =
      subst (Chooses best []) (ok-injective e) (inl refl, Improves-refl best, tt)
  choose_step_lem best (d ∷ prefer) {r} e =
      let (next, stepped, rest) = >>=-ok (step origin d (pos 1)) _ e in
      let best' = consider_step origin target obstacles perps best d next in
      let ahead = choose_step_lem best' prefer rest in
      elim (consider_step_lem best d next) [
        | inl (same, beaten) ↦
            let (source, improved, all) = subst (λ b. Chooses b prefer r) same ahead in
            (
              source,
              improved,
              (
                (next, stepped, λ free. Beaten-trans (key d next) best r (beaten free) improved),
                all,
              ),
            )
        | inr (taken, free, i) ↦
            let (source, improved, all) = subst (λ b. Chooses b prefer r) taken ahead in
            (
              elim source [
                | inl here ↦ inr (d, next, (stepped, free), here)
                | inr later ↦ inr later
              ],
              Improves-trans best (key d next) d r i improved,
              ((next, stepped, λ _. improved), all),
            )
      ]

  -- No way out, or a free step with no smaller key among the free ones; all four steps exist.
  abbrev pub IsEscape : Option Direction → Type 0
  IsEscape none =
      (d : Direction)
      → (next : Coordinate) × (step origin d (pos 1) ≡ ok next) × (mem_cell next obstacles ≢ false)
  IsEscape (some d) =
      (next : Coordinate) × IsFree d next
      × ((e : Direction)
          → (other : Coordinate) × (step origin e (pos 1) ≡ ok other)
            × (mem_cell other obstacles ≡ false → key_less (key e other) (key d next) ≡ false))

  Chooses-IsEscape :
      (prefer : List Direction) (r : Option (Direction × Key))
      → names_all prefer ≡ true
      → Chooses none prefer r
      → IsEscape (direction_of r)
  Chooses-IsEscape prefer none named (source, _, all) =
      λ d. All_mem (Covered none) d prefer all (mem_of_all d prefer named)
  Chooses-IsEscape prefer (some (d, k)) named (inl absent, _, all) = cc
  Chooses-IsEscape prefer (some (d, k)) named (inr (e, next, free, same), _, all) =
      subst (λ r. (All (Covered r) prefer → IsEscape (direction_of r))) (sym same)
        (λ all. (
          next,
          free,
          λ o. All_mem (Covered (some (e, key e next))) o prefer all (mem_of_all o prefer named),
        ))
        all

-- Away from the target a forced step is found only where all four neighbours are in the range of
-- coordinates. If none is returned, all four are obstacles; if one is, its cell is no obstacle, and no
-- free step comes before it in the order: not to move farther, to be perpendicular to the main axis,
-- to end nearer.
pub forced_escape_step_lem :
    (origin target : Coordinate) (obstacles : List Coordinate) (even_side : Bool)
    {r : Option Direction}
    → origin ≢ target
    → forced_escape_step origin target obstacles even_side ≡ ok r
    → IsEscape origin target obstacles
        (perpendicular (primary_direction (target.x -ℤ origin.x) (target.y -ℤ origin.y)) even_side)
        r
unfolding forced_escape_step
forced_escape_step_lem origin target obstacles even_side {r} away e =
    let primary = primary_direction (target.x -ℤ origin.x) (target.y -ℤ origin.y) in
    let perps = perpendicular primary even_side in
    elim (Bool-cases (eq_coordinate origin target)) [
      | inl same ↦ absurd (away ((eq_coordinate_iff origin target).0 same))
      | inr other ↦
          let (best, chosen, rest) =
            >>=-ok (choose_step origin target obstacles perps none (preferred primary even_side)) _
              (rw other at e) in
          subst (IsEscape origin target obstacles perps) (ok-injective rest) (
            Chooses-IsEscape origin target obstacles perps (preferred primary even_side) best
              (preferred_all primary even_side)
              (choose_step_lem origin target obstacles perps none (preferred primary even_side)
                chosen))
    ]
