-- ===== src/Domain/Economy/Replay.antt =====
-- domain/economy.py: the states that `replay_economy` returns.
use mathlib.Core.Path.{subst}
use arena_hero_agent.Prelude.{
  suc, ◌<◌, ◌≡◌, refl, sym, ap, String, ◌⊎◌, inl, inr, List, [], ◌∷◌, ◌++◌, length, All, ◌==◌,
  arith, Bool-cases,
}
use arena_hero_agent.Prelude.Int.{pos, ◌-ℤ◌}
use arena_hero_agent.Prelude.Exceptions.{ok, Result-cases, >>=-ok, ok-injective, ◌>>=◌}
use arena_hero_agent.Domain.Economy.State.{
  EconomyTurnInput, EconomyState, advance, replay_from, replay_economy,
}
use arena_hero_agent.Domain.Economy.Checks.{IsChecked}
use arena_hero_agent.Domain.Economy.Reducer.{IsSound, advanced, advance_lem, state_of-IsSound}

-- The state that comes next: the same one, or one of a later tick with the changes of the balances.
abbrev pub Follows : (earlier later : EconomyState) → Type 0
Follows s t =
    (t ≡ s)
    ⊎ ((s.tick < t.tick)
        × (t.seed ≡ s.seed)
        × (t.resource_delta ≡ pos t.resources -ℤ pos s.resources)
        × (t.population_delta ≡ pos t.population -ℤ pos s.population))

-- Each state follows the one before it, and is sound.
abbrev pub IsHistory : (EconomyTurnInput → String) → EconomyState → List EconomyState → Type 0
IsHistory digest s [] = Unit
IsHistory digest s (t ∷ states) = IsSound digest t × Follows s t × IsHistory digest t states

module _ (digest : EconomyTurnInput → String) where
  advance-Follows :
      (s : EconomyState) (source : EconomyTurnInput)
      → IsSound digest s
      → IsChecked source
      → {t : EconomyState} → advance digest s source ≡ ok t
      → (t ≡ s) ⊎ ((t ≡ advanced digest s source) × (s.tick < source.tick) × (source.seed ≡ s.seed))
  advance-Follows s source sound c e = elim (Bool-cases (source.tick == s.tick)) [
    | inl now ↦ inl (ground (arith, advance_lem digest s source sound c))
    | inr later ↦ inr (ground (arith, advance_lem digest s source sound c))
  ]

  advance-IsSound :
      (s : EconomyState) (source : EconomyTurnInput)
      → IsSound digest s
      → IsChecked source
      → {t : EconomyState} → advance digest s source ≡ ok t
      → IsSound digest t × Follows s t
  advance-IsSound s source sound c {t} e = elim (advance-Follows s source sound c e) [
    | inl same ↦ subst (λ t. IsSound digest t × Follows s t) (sym same) (sound, inl refl)
    | inr (next, later, seeds) ↦
        subst (λ t. IsSound digest t × Follows s t) (sym next)
          (state_of-IsSound digest source _ _ c, inr (later, seeds, refl, refl))
  ]

  abbrev Replayed : EconomyState → List EconomyTurnInput → List EconomyState → Type 0
  Replayed s inputs states = IsHistory digest s states × (length states ≡ length inputs)

  replay_from-IsHistory :
      (s : EconomyState) (inputs : List EconomyTurnInput)
      → IsSound digest s
      → All IsChecked inputs
      → {states : List EconomyState} → replay_from digest s inputs ≡ ok states
      → Replayed s inputs states
  unfolding replay_from
  replay_from-IsHistory s [] sound c e = subst (Replayed s []) (ok-injective e) (tt, refl)
  replay_from-IsHistory s (source ∷ inputs) sound c e =
      let (t, first, rest) = >>=-ok (advance digest s source) _ e in
      let (states, later, all) = >>=-ok (replay_from digest t inputs) _ rest in
      let (here, follows) = advance-IsSound s source sound c.0 first in
      let (history, count) = replay_from-IsHistory t inputs here c.1 later in
      subst (Replayed s (source ∷ inputs)) (ok-injective all)
        ((here, follows, history), ap suc count)

  -- A replay that returns gives one state for each input after the initial one. Each of them is sound,
  -- and either repeats the state before it or has a later tick, the same seed, and the exact changes
  -- of resources and population since that state. The initial state is sound, the inputs checked.
  pub replay_economy_lem :
      (start : EconomyState) (inputs : List EconomyTurnInput)
      → IsSound digest start
      → All IsChecked inputs
      → {states : List EconomyState} → replay_economy digest start inputs ≡ ok states
      → (rest : List EconomyState) × (states ≡ start ∷ rest)
        × IsHistory digest start rest
        × (length rest ≡ length inputs)
  unfolding replay_economy
  replay_economy_lem start inputs sound c e =
      let (rest, replayed, all) = >>=-ok (replay_from digest start inputs) _ e in
      let (history, count) = replay_from-IsHistory start inputs sound c replayed in
      (rest, sym (ok-injective all), history, count)

-- The state that a replay ends in.
abbrev pub last_state : EconomyState → List EconomyState → EconomyState
last_state start [] = start
last_state start (state ∷ states) = last_state state states

-- Replaying two batches of inputs at once is replaying the first and going on, with the second, from
-- the state that it ends in, errors included.
pub replay_from-append :
    (digest : EconomyTurnInput → String) (start : EconomyState) (xs ys : List EconomyTurnInput)
    → replay_from digest start (xs ++ ys) ≡ (
        replay_from digest start xs >>= λ first.
        replay_from digest (last_state start first) ys >>= λ rest. ok (first ++ rest))
unfolding replay_from
replay_from-append digest start [] ys = elim (Result-cases (replay_from digest start ys)) [
  | inl (x, e) ↦ rw e
  | inr (rest, e) ↦ rw e
]
replay_from-append digest start (x ∷ xs) ys = elim (Result-cases (advance digest start x)) [
  | inl (e, bad) ↦ rw bad
  | inr (t, e) ↦
      rw (e, replay_from-append digest t xs ys)
        (elim (Result-cases (replay_from digest t xs)) [
          | inl (x, bad) ↦ rw bad
          | inr (first, f) ↦
              rw f (elim (Result-cases (replay_from digest (last_state t first) ys)) [
                | inl (x, bad) ↦ rw bad
                | inr (rest, g) ↦ rw g
              ])
        ])
]
