-- ===== src/Strategies/MovementGuard/Trail.antt =====
-- strategies/movement_guard.py: what a trail remembers, and how long a repath keeps it quiet.
use arena_hero_agent.Prelude.{
  ℕ, zero, suc, ◌+◌, ◌-◌, ◌≤◌, ◌<◌, ◌≡◌, refl, sym, ap, ◌∙◌, max, false, Option, some, List, [],
  ◌∷◌, ◌++◌, length, drop, length-append, length-drop, drop-append, append_nil, append_assoc, ltb,
  arith, if◌then◌else◌, inl, inr, Bool-cases,
}
use arena_hero_agent.Prelude.Int.{pos, ◌-ℤ◌}
use arena_hero_agent.Prelude.Exceptions.{Result, ok, ◌>>=◌}
use arena_hero_agent.Domain.ValueObjects.{Coordinate}
use arena_hero_agent.Strategies.MovementGuard.{
  LoopTrail, stays, last_cells, observe_loop_position, detect_spatial_loop, mark_loop_repath,
}

-- Positions observed one after the other.
abbrev pub observe_all : (window : ℕ) → LoopTrail → List Coordinate → Result LoopTrail
observe_all window trail [] = ok trail
observe_all window trail (p ∷ positions) =
    observe_loop_position trail p (pos window) >>= λ next. observe_all window next positions

drop_same : {m n : ℕ} (xs : List Coordinate) → m ≡ n → drop m xs ≡ drop n xs
drop_same xs e = ap (λ k. drop k xs) e

drop_nil : (n : ℕ) → drop {A = Coordinate} n [] ≡ []
drop_nil zero = refl
drop_nil (suc n) = refl

drop-drop : (m n : ℕ) (xs : List Coordinate) → drop m (drop n xs) ≡ drop (n + m) xs
drop-drop m zero xs = drop_same xs (omega arith)
drop-drop m (suc n) (x ∷ xs) =
    drop-drop m n xs ∙ drop_same {m = suc (n + m)} {n = suc n + m} (x ∷ xs) (omega arith)
drop-drop m (suc n) [] = drop_nil m ∙ sym (drop_nil (suc n + m))

last_cells_all : (w : ℕ) (xs : List Coordinate) → length xs ≤ w → last_cells w xs ≡ xs
last_cells_all w xs h = drop_same {n = 0} xs (omega arith)

-- What was cut off before does not matter to what is kept later.
last_cells-append :
    (w : ℕ) (xs ys : List Coordinate)
    → last_cells w (last_cells w xs ++ ys) ≡ last_cells w (xs ++ ys)
last_cells-append w xs ys =
    let cut = length xs - w in
    ap (last_cells w) (sym (drop-append cut xs ys (omega arith)))
    ∙ drop-drop (length (drop cut (xs ++ ys)) - w) cut (xs ++ ys)
    ∙ drop_same {n = length (xs ++ ys) - w} (xs ++ ys)
        (omega (arith, length-drop cut (xs ++ ys), length-append xs ys))

module _ (window : ℕ) (w : 0 < window) where
  -- What one observation makes of a trail.
  abbrev Observes : LoopTrail → Coordinate → LoopTrail → Type 0
  Observes trail p next =
      (observe_loop_position trail p (pos window) ≡ ok next)
      × (next.history ≡ last_cells window (trail.history ++ p ∷ []))
      × (next.cooldown ≡ trail.cooldown - 1)
      × (next.repath_side ≡ trail.repath_side)

  trimmed :
      (xs : List Coordinate)
      → (if ltb window (length xs) then last_cells window xs else xs) ≡ last_cells window xs
  trimmed xs = elim (Bool-cases (ltb window (length xs))) [
    | inl longer ↦ rw longer
    | inr shorter ↦ rw shorter (sym (last_cells_all window xs (ground arith)))
  ]

  observe_lem : (trail : LoopTrail) (p : Coordinate) → (next : LoopTrail) × Observes trail p next
  unfolding observe_loop_position
  observe_lem trail p = (
    record {
      history =
          if ltb window (length (trail.history ++ p ∷ []))
          then last_cells window (trail.history ++ p ∷ [])
          else trail.history ++ p ∷ [];
      static_ticks = if stays trail.last_pos p then suc trail.static_ticks else 1;
      last_pos = some p;
      cooldown = if ltb 0 trail.cooldown then trail.cooldown - 1 else 0;
      repath_side = trail.repath_side;
      last_repath_tick = trail.last_repath_tick;
    },
    (ground arith, trimmed (trail.history ++ p ∷ []), ground arith, refl),
  )

  length-last_cells : (xs : List Coordinate) → length (last_cells window xs) ≤ window
  length-last_cells xs = omega (arith, length-drop (length xs - window) xs)

  -- Observing positions from a trail that fits the window always returns, and leaves just the last
  -- `window` of all its positions; each observation takes one off the cooldown, and the side stays.
  pub observe_all_lem :
      (trail : LoopTrail) (positions : List Coordinate)
      → length trail.history ≤ window
      → (next : LoopTrail) × (observe_all window trail positions ≡ ok next)
        × (next.history ≡ last_cells window (trail.history ++ positions))
        × (next.cooldown ≡ trail.cooldown - length positions)
        × (next.repath_side ≡ trail.repath_side)
  observe_all_lem trail [] fits = (
    trail,
    refl,
    sym (last_cells_all window trail.history fits)
        ∙ ap (last_cells window) (sym (append_nil trail.history)),
    omega arith,
    refl,
  )
  observe_all_lem trail (p ∷ positions) fits =
      let (next, (seen, kept, cool, side)) = observe_lem trail p in
      let (last, returned, rest, cooler, same) =
        observe_all_lem next positions
          (omega (arith, ap length kept, length-last_cells (trail.history ++ p ∷ []))) in
      (
        last,
        rw seen returned,
        rest
            ∙ ap (λ h. last_cells window (h ++ positions)) kept
            ∙ last_cells-append window (trail.history ++ p ∷ []) positions
            ∙ ap (last_cells window) (append_assoc trail.history (p ∷ []) positions),
        omega arith,
        same ∙ side,
      )

  -- A repath turns the side round and keeps the detection quiet: after fewer further observations than
  -- its cooldown has ticks, no loop is reported, whatever the target and the diameter are. The trail
  -- holds at most `window` cells, and the window, `min_unique` and `static_ticks` are positive.
  pub quiet_after_repath :
      (trail : LoopTrail) (tick cooldown : ℕ) (positions : List Coordinate)
      (target : Option Coordinate) (min_unique diameter static : ℕ)
      → length trail.history ≤ window
      → length positions < cooldown
      → 0 < min_unique
      → 0 < static
      → (marked : LoopTrail) × (next : LoopTrail) × (mark_loop_repath trail
            (pos tick)
            (pos cooldown)
          ≡ ok marked)
        × (observe_all window marked positions ≡ ok next)
        × (detect_spatial_loop next target (pos window) (pos min_unique) (pos diameter) (pos static)
            ≡ ok false)
        × (next.repath_side ≡ pos 1 -ℤ trail.repath_side)
  unfolding mark_loop_repath detect_spatial_loop
  quiet_after_repath trail tick cooldown positions target min_unique diameter static fits fewer u
        t =
      let marked : LoopTrail = record trail {
        static_ticks = 0;
        cooldown = max 1 cooldown;
        repath_side = pos 1 -ℤ trail.repath_side;
        last_repath_tick = pos tick;
      } in
      let (next, returned, _, cool, side) = observe_all_lem marked positions fits in
      (marked, next, ground arith, returned, ground arith, side)
