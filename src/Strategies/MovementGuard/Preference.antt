-- ===== src/Strategies/MovementGuard/Preference.antt =====
-- strategies/movement_guard.py: the order of the keys of a step, and the directions that are tried.
use mathlib.Core.Path.{subst}
use arena_hero_agent.Prelude.{
  ◌≡◌, refl, sym, Bool, true, false, ◌&&◌, Option, none, some, List, [], ◌∷◌, All, inl, inr, arith,
  Bool-cases, ◌==◌,
}
use arena_hero_agent.Domain.ValueObjects.{Direction, north, east, south, west}
use arena_hero_agent.Strategies.MovementGuard.Home.{
  mem_direction, direction_code, preferred, Key, key_less,
}

pub key_less_trans :
    (x y z : Key) → key_less x y ≡ false → key_less y z ≡ false → key_less x z ≡ false
key_less_trans (a, b, c) (d, e, f) (g, h, i) p q = ground arith

pub key_less_asym : (x y : Key) → key_less x y ≡ true → key_less y x ≡ false
key_less_asym (a, b, c) (d, e, f) p = ground arith

pub key_less_irrefl : (x : Key) → key_less x x ≡ false
key_less_irrefl (a, b, c) = ground arith

direction_code_inj : (d e : Direction) → (direction_code d == direction_code e) ≡ true → d ≡ e
direction_code_inj north north h = refl
direction_code_inj east east h = refl
direction_code_inj south south h = refl
direction_code_inj west west h = refl
direction_code_inj d e h = ground arith

pub All_mem {ℓ} :
    (P : Direction → Type ℓ) (d : Direction) (directions : List Direction)
    → All P directions
    → mem_direction d directions ≡ true
    → P d
All_mem P d [] all h = cc
All_mem P d (e ∷ directions) (first, rest) h =
    elim (Bool-cases (direction_code d == direction_code e)) [
      | inl same ↦ subst P (sym (direction_code_inj d e same)) first
      | inr other ↦ All_mem P d directions rest (ground arith)
    ]

-- Whether all four are named.
abbrev pub names_all : List Direction → Bool
names_all directions =
    (mem_direction north directions && mem_direction east directions)
    && (mem_direction south directions && mem_direction west directions)

pub preferred_all :
    (primary : Option Direction) (even_side : Bool) → names_all (preferred primary even_side) ≡ true
unfolding preferred
preferred_all none true = refl
preferred_all none false = refl
preferred_all (some north) true = refl
preferred_all (some north) false = refl
preferred_all (some east) true = refl
preferred_all (some east) false = refl
preferred_all (some south) true = refl
preferred_all (some south) false = refl
preferred_all (some west) true = refl
preferred_all (some west) false = refl

pub mem_of_all :
    (d : Direction) (directions : List Direction)
    → names_all directions ≡ true
    → mem_direction d directions ≡ true
mem_of_all north directions h = ground arith
mem_of_all east directions h = ground arith
mem_of_all south directions h = ground arith
mem_of_all west directions h = ground arith
