-- ===== src/Prelude/Sort.antt =====
-- Python's stable sort by a key, as an insertion sort over the order of the keys.
use mathlib.Core.Path.{◌≡◌, refl}
use Prim.Native.Nat.{ℕ, ◌+◌, Ordering}
use Prim.Native.String.{String, compare}
use mathlib.Core.Bool.{Bool, true, false, ◌||◌}
use mathlib.Core.List.{List, [], ◌∷◌, ◌++◌, map, Perm}
use mathlib.Core.List.Perm
use mathlib.Core.Logic.{Lift, ◌⊎◌, inl, inr}
use native.Mathlib.Omega.{arith}
use text.Mathlib.TextEquality.{eq_iff}
use text.Mathlib.Text.{◌==◌ as str_eq}
use arena_hero_agent.Prelude.Dict.{mem_text}
use arena_hero_agent.Prelude.Tests.{if◌then◌else◌, Bool-cases}

-- The order of texts, by code points.
abbrev pub text_leq : String → String → Bool
text_leq s t = elim (compare s t) [ Ordering.gt ↦ false | _ ↦ true ]

module _ {ℓ} {A : Type ℓ} (leq : A → A → Bool) where
  unfoldable pub insert_sorted : A → List A → List A
  insert_sorted x [] = x ∷ []
  insert_sorted x (y ∷ ys) = if leq x y then x ∷ y ∷ ys else y ∷ insert_sorted x ys

  unfoldable pub sort_by : List A → List A
  unfolding insert_sorted
  sort_by [] = []
  sort_by (x ∷ xs) = insert_sorted x (sort_by xs)

  insert_sorted-perm : (x : A) (ys : List A) → Perm (insert_sorted x ys) (x ∷ ys)
  unfolding insert_sorted
  insert_sorted-perm x [] = Perm.rfl
  insert_sorted-perm x (y ∷ ys) = elim (Bool-cases (leq x y)) [
    | inl first ↦ rw (first, insert_sorted) Perm.rfl
    | inr later ↦
        rw (later, insert_sorted)
          (Perm.trans (Perm.cons y (insert_sorted-perm x ys)) (Perm.swap x y ys))
  ]

  pub sort_by-perm : (xs : List A) → Perm (sort_by xs) xs
  unfolding sort_by
  sort_by-perm [] = Perm.rfl
  sort_by-perm (x ∷ xs) =
      Perm.trans (insert_sorted-perm x (sort_by xs)) (Perm.cons x (sort_by-perm xs))

-- What does not depend on the order of a list: tests, sums, members, repeated texts.
module _ {ℓ} {A : Type ℓ} where
  abbrev pub any_of : (A → Bool) → List A → Bool
  any_of test [] = false
  any_of test (x ∷ xs) = test x || any_of test xs

  abbrev pub sum_of : (A → ℕ) → List A → ℕ
  sum_of weight [] = 0
  sum_of weight (x ∷ xs) = weight x + sum_of weight xs

  abbrev pub Among : A → List A → Type ℓ
  Among x [] = Lift {0, ℓ} ⊥
  Among x (y ∷ ys) = (x ≡ y) ⊎ Among x ys

-- `len(set(texts)) != len(texts)`
unfoldable pub has_duplicate : List String → Bool
unfolding mem_text
has_duplicate [] = false
has_duplicate (t ∷ texts) = mem_text t texts || has_duplicate texts

module _ {ℓ} {A : Type ℓ} (leq : A → A → Bool) where
  any_of-insert_sorted :
      (test : A → Bool) (x : A) (ys : List A)
      → any_of test (insert_sorted leq x ys) ≡ (test x || any_of test ys)
  unfolding insert_sorted
  any_of-insert_sorted test x [] = refl
  any_of-insert_sorted test x (y ∷ ys) = ground (arith, any_of-insert_sorted test x ys)

  pub any_of-sort_by :
      (test : A → Bool) (xs : List A) → any_of test (sort_by leq xs) ≡ any_of test xs
  unfolding sort_by
  any_of-sort_by test [] = refl
  any_of-sort_by test (x ∷ xs) =
      ground (arith, any_of-insert_sorted test x (sort_by leq xs), any_of-sort_by test xs)

  sum_of-insert_sorted :
      (weight : A → ℕ) (x : A) (ys : List A)
      → sum_of weight (insert_sorted leq x ys) ≡ weight x + sum_of weight ys
  unfolding insert_sorted
  sum_of-insert_sorted weight x [] = refl
  sum_of-insert_sorted weight x (y ∷ ys) = ground (arith, sum_of-insert_sorted weight x ys)

  pub sum_of-sort_by :
      (weight : A → ℕ) (xs : List A) → sum_of weight (sort_by leq xs) ≡ sum_of weight xs
  unfolding sort_by
  sum_of-sort_by weight [] = refl
  sum_of-sort_by weight (x ∷ xs) =
      ground (arith, sum_of-insert_sorted weight x (sort_by leq xs), sum_of-sort_by weight xs)

  Among-insert_sorted :
      (a x : A) (ys : List A) → Among a (x ∷ ys) → Among a (insert_sorted leq x ys)
  unfolding insert_sorted
  Among-insert_sorted a x [] h = h
  Among-insert_sorted a x (y ∷ ys) h = elim (Bool-cases (leq x y)) [
    | inl first ↦ rw (first, insert_sorted) h
    | inr later ↦
        rw (later, insert_sorted)
          (elim h [
            | inl e ↦ inr (Among-insert_sorted a x ys (inl e))
            | inr (inl e) ↦ inl e
            | inr (inr rest) ↦ inr (Among-insert_sorted a x ys (inr rest))
          ])
  ]

  pub Among-sort_by : (a : A) (xs : List A) → Among a xs → Among a (sort_by leq xs)
  unfolding sort_by
  Among-sort_by a [] h = h
  Among-sort_by a (x ∷ xs) (inl e) = Among-insert_sorted a x (sort_by leq xs) (inl e)
  Among-sort_by a (x ∷ xs) (inr h) =
      Among-insert_sorted a x (sort_by leq xs) (inr (Among-sort_by a xs h))

  module _ (name : A → String) where
    mem_text-insert_sorted :
        (k : String) (x : A) (ys : List A)
        → mem_text k (map name (insert_sorted leq x ys))
          ≡ (str_eq k (name x) || mem_text k (map name ys))
    unfolding insert_sorted mem_text
    mem_text-insert_sorted k x [] = refl
    mem_text-insert_sorted k x (y ∷ ys) = ground (arith, mem_text-insert_sorted k x ys)

    pub mem_text-sort_by :
        (k : String) (xs : List A)
        → mem_text k (map name (sort_by leq xs)) ≡ mem_text k (map name xs)
    unfolding sort_by mem_text
    mem_text-sort_by k [] = refl
    mem_text-sort_by k (x ∷ xs) =
        ground (arith, mem_text-insert_sorted k x (sort_by leq xs), mem_text-sort_by k xs)

    has_duplicate-insert_sorted :
        (x : A) (ys : List A)
        → has_duplicate (map name (insert_sorted leq x ys))
          ≡ (mem_text (name x) (map name ys) || has_duplicate (map name ys))
    unfolding insert_sorted mem_text has_duplicate
    has_duplicate-insert_sorted x [] = refl
    has_duplicate-insert_sorted x (y ∷ ys) = ground (
      arith,
      eq_iff (name x) (name y),
      eq_iff (name y) (name x),
      mem_text-insert_sorted (name y) x ys,
      has_duplicate-insert_sorted x ys,
    )

    pub has_duplicate-sort_by :
        (xs : List A) → has_duplicate (map name (sort_by leq xs)) ≡ has_duplicate (map name xs)
    unfolding sort_by has_duplicate
    has_duplicate-sort_by [] = refl
    has_duplicate-sort_by (x ∷ xs) = ground (
      arith,
      has_duplicate-insert_sorted x (sort_by leq xs),
      mem_text-sort_by (name x) xs,
      has_duplicate-sort_by xs,
    )

module _ {ℓ} {A : Type ℓ} (name : A → String) where
  pub mem_text-append :
      (k : String) (xs : List A) (x : A)
      → mem_text k (map name (xs ++ x ∷ [])) ≡ (mem_text k (map name xs) || str_eq k (name x))
  unfolding mem_text
  mem_text-append k [] x = ground arith
  mem_text-append k (y ∷ xs) x = ground (arith, mem_text-append k xs x)

  pub has_duplicate-append :
      (xs : List A) (x : A)
      → has_duplicate (map name (xs ++ x ∷ []))
        ≡ (has_duplicate (map name xs) || mem_text (name x) (map name xs))
  unfolding has_duplicate mem_text
  has_duplicate-append [] x = refl
  has_duplicate-append (y ∷ xs) x = ground (
    arith,
    eq_iff (name y) (name x),
    eq_iff (name x) (name y),
    mem_text-append (name y) xs x,
    has_duplicate-append xs x,
  )
