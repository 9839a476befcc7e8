-- ===== src/Prelude/Dict.antt =====
-- Python dicts with text keys, as association lists in insertion order, and lists of texts.
use mathlib.Core.Path.{◌≡◌, refl}
use mathlib.Core.Bool.{Bool, true, false, ◌||◌}
use mathlib.Core.List.{List, [], ◌∷◌, map}
use mathlib.Core.Option.{Option, none, some}
use Prim.Native.String.{String}
use native.Mathlib.Omega.{arith}
use text.Mathlib.Text.{◌==◌ as str_eq}
use text.Mathlib.TextEquality.{eq_iff}
use arena_hero_agent.Prelude.Tests.{if◌then◌else◌}

abbrev pub Dict {ℓ} : Type ℓ → Type ℓ
Dict V = List (String × V)

-- `k in texts`
unfoldable pub mem_text : String → List String → Bool
mem_text k [] = false
mem_text k (j ∷ texts) = str_eq k j || mem_text k texts

module _ {ℓ} {V : Type ℓ} where
  abbrev pub keys : Dict V → List String
  keys d = map (λ e. e.0) d

  -- `d.get(k)`
  unfoldable pub lookup : String → Dict V → Option V
  lookup k [] = none
  lookup k ((j, v) ∷ d) = if str_eq k j then some v else lookup k d

  -- `d[k] = v`
  unfoldable pub insert : String → V → Dict V → Dict V
  insert k v [] = (k, v) ∷ []
  insert k v ((j, w) ∷ d) = if str_eq k j then (j, v) ∷ d else (j, w) ∷ insert k v d

  pub lookup-insert :
      (k j : String) (v : V) (d : Dict V)
      → lookup j (insert k v d) ≡ (if str_eq j k then some v else lookup j d)
  unfolding lookup insert
  lookup-insert k j v [] = refl
  lookup-insert k j v ((i, w) ∷ d) =
      ground (arith, eq_iff k j, eq_iff j k, eq_iff k i, eq_iff j i, lookup-insert k j v d)

  pub mem_text-keys :
      (k : String) (d : Dict V)
      → mem_text k (keys d) ≡ elim (lookup k d) [ none ↦ false | some _ ↦ true ]
  unfolding lookup mem_text
  mem_text-keys k [] = refl
  mem_text-keys k ((j, w) ∷ d) = ground (arith, eq_iff k j, mem_text-keys k d)

  pub mem_text-keys-insert :
      (k j : String) (v : V) (d : Dict V)
      → mem_text j (keys (insert k v d)) ≡ (str_eq j k || mem_text j (keys d))
  mem_text-keys-insert k j v d =
      ground (arith, mem_text-keys j (insert k v d), mem_text-keys j d, lookup-insert k j v d)
