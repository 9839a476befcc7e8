-- ===== src/Runtime/StateStore/Tests.antt =====
-- The store on states that are pairs of an owner and a digest, and the theorems at them.
use arena_hero_agent.Prelude.{ℕ, ◌≡◌, refl, true, false, ◌&&◌, some, [], String, str_eq}
use arena_hero_agent.Domain.ValueObjects.{Generation}
use arena_hero_agent.Runtime.Leases.{active, expired}
use arena_hero_agent.Runtime.StateStore.{
  StateView, LeaseView, Snapshot, States, cas_admitted, compare_and_set, restore, load,
}
use arena_hero_agent.Runtime.StateStore.Generations.{
  Run, here, and_then, setting, IsSound, Run-IsSound, one_winner,
}

abbrev view : StateView (String × String)
view = record {
  owner = λ x. x.0;
  digest = λ x. x.1;
  equal = λ x y. str_eq x.0 y.0 && str_eq x.1 y.1;
}

abbrev gen : ℕ → Generation
gen n = record { value = n }

abbrev lease : ℕ → LeaseView
lease n = record { tenant_id = "a"; generation = gen n; disposition = active }

abbrev first : States (String × String)
first = (compare_and_set view "a" (gen 0) (gen 1) "d1" ("a", "d1") (lease 0) []).1

abbrev stored : Snapshot (String × String)
stored = record { generation = gen 1; state_digest = "d1"; state = ("a", "d1") }

runs :
    (load "a" first ≡ some stored)
    × (compare_and_set view "a" (gen 1) (gen 2) "d2" ("a", "d1") (lease 1) first ≡ (false, first))
    × (compare_and_set view "a"
          (gen 1)
          (gen 2)
          "d2"
          ("a", "d2")
          (record { tenant_id = "a"; generation = gen 1; disposition = expired })
          first
        ≡ (false, first))
    × ((restore view "a" (gen 1) "d1" ("a", "d1") (lease 1) first).0 ≡ true)
    × ((restore view "a" (gen 1) "d9" ("a", "d9") (lease 1) first).0 ≡ false)
    × ((restore view "a" (gen 4) "d9" ("a", "d9") (lease 4) first).0 ≡ true)
unfolding compare_and_set restore load
runs = (refl, refl, refl, refl, refl, refl)

first-Run : Run view [] first
unfolding compare_and_set cas_admitted
first-Run = and_then here (setting "a" (gen 0) (gen 1) "d1" ("a", "d1") (lease 0) refl)

Run-IsSound_example : IsSound view first
Run-IsSound_example = Run-IsSound view first-Run

one_winner_example :
    compare_and_set view "a" (gen 0) (gen 1) "e" ("a", "e") (lease 0) first ≡ (false, first)
unfolding compare_and_set
one_winner_example =
    one_winner view "a" (gen 0) (gen 1) (gen 1) "d1" "e" ("a", "d1") ("a", "e") (lease 0) (lease 0)
      [] refl here
