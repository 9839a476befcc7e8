-- ===== src/Strategies/RaidQuota/Tests.antt =====
-- Runs of the quotas, of the target and of the queue, and the theorems at concrete inputs.
use arena_hero_agent.Prelude.{
  ℕ, ◌+◌, ◌-◌, ◌≤◌, ◌<◌, ◌≡◌, refl, min, max, true, false, some, List, [], ◌∷◌, length, String,
}
use arena_hero_agent.Prelude.Int.{pos, negsuc, ltb_ℤ, ◌+ℤ◌, ◌-ℤ◌}
use arena_hero_agent.Prelude.Dict.{Dict, keys, lookup, insert, mem_text}
use arena_hero_agent.Prelude.Sort.{has_duplicate, sort_by}
use arena_hero_agent.Domain.ValueObjects.{Coordinate}
use arena_hero_agent.Domain.Navigation.{manhattan}
use arena_hero_agent.Strategies.RaidQuota.{
  UnitQuota, StrikeGroup, RaidState, StationaryCore, strike_group_quota, last_sorted,
  select_strike_group, raid_active, recall_raid, pick_raid_target, pick_from, ReplacementQueue,
  reconcile_replacement_queue, replacement_gap_order, missing, adjust, positive,
}
use arena_hero_agent.Strategies.RaidQuota.Quotas.{strike_group_lem}
use arena_hero_agent.Strategies.RaidQuota.Targets.{IsTarget, pick_raid_target_lem}
use arena_hero_agent.Strategies.RaidQuota.Replacement.{clamp, departed, reconcile_lem}

abbrev vanguards : List String
vanguards = "v3" ∷ "v1" ∷ "v4" ∷ "v2" ∷ []

abbrev rangers : List String
rangers = "r2" ∷ "r1" ∷ "r3" ∷ []

abbrev quota : UnitQuota
quota = strike_group_quota 4 (length vanguards) (length rangers) 2 2 2

abbrev group : StrikeGroup
group = select_strike_group vanguards rangers quota

selected : group ≡ record { vanguard_ids = "v3" ∷ "v4" ∷ []; ranger_ids = "r3" ∷ [] }
unfolding strike_group_quota select_strike_group last_sorted sort_by
selected = refl

strike_group_lem_example :
    (length group.ranger_ids ≡ quota.ranger_count)
    × (length group.vanguard_ids ≡ quota.vanguard_count)
    × (length group.ranger_ids ≤ 2)
    × (length group.vanguard_ids ≤ 4 - length group.ranger_ids)
    × (length group.vanguard_ids + length group.ranger_ids < 4
        → length group.vanguard_ids ≡ min (length vanguards) (max 1 (length vanguards - 2)))
    × (mem_text "v4" group.vanguard_ids ≡ true → mem_text "v4" vanguards ≡ true)
    × (mem_text "v4" group.ranger_ids ≡ true → mem_text "v4" rangers ≡ true)
strike_group_lem_example = strike_group_lem 4 vanguards rangers 2 2 2 "v4"

abbrev at_x : ℕ → Coordinate
at_x n = record { x = pos n; y = negsuc 0 }

abbrev core_seen : String → ℕ → ℕ → StationaryCore
core_seen key n observations = record { key = key; position = at_x n; observations = observations }

abbrev cores : List StationaryCore
cores = core_seen "far" 60 5 ∷ core_seen "new" 4 2 ∷ core_seen "b" 20 3 ∷ core_seen "c" 9 4 ∷ []

nearest_confirmed : pick_raid_target (at_x 0) 3 40 cores ≡ some (at_x 9)
unfolding pick_raid_target pick_from manhattan ◌-ℤ◌
nearest_confirmed = refl

pick_raid_target_lem_example : IsTarget (at_x 0) 3 40 cores (pick_raid_target (at_x 0) 3 40 cores)
pick_raid_target_lem_example = pick_raid_target_lem (at_x 0) 3 40 cores

abbrev before : Dict String
before = ("u1", "worker") ∷ ("u2", "ranger") ∷ ("u3", "ranger") ∷ []

abbrev now : Dict String
now = ("u3", "ranger") ∷ ("u4", "worker") ∷ ("u5", "worker") ∷ []

abbrev queue : ReplacementQueue
queue = record { counts = ("vanguard", pos 2) ∷ [] }

abbrev after : ReplacementQueue
after = reconcile_replacement_queue before now queue

drained : after ≡ record { counts = ("vanguard", pos 2) ∷ ("ranger", pos 1) ∷ [] }
unfolding reconcile_replacement_queue adjust positive lookup insert mem_text ◌+ℤ◌ ◌-ℤ◌
drained = refl

reconcile_lem_example :
    (missing "ranger" after
      ≡ clamp (
          (missing "ranger" queue +ℤ pos (departed "ranger" now before))
          -ℤ pos (departed "ranger" before now)))
    × (mem_text "ranger" (replacement_gap_order after ("ranger" ∷ []))
        ≡ ltb_ℤ (pos 0) (missing "ranger" after))
    × (has_duplicate (keys after.counts) ≡ false)
unfolding has_duplicate
reconcile_lem_example = reconcile_lem before now queue "ranger" ("ranger" ∷ []) refl

abbrev raid : RaidState
raid = record {
  enabled = true;
  recall = false;
  vanguard_ids = "v1" ∷ [];
  ranger_ids = [];
  core_id = some "c";
  core_position = some (at_x 9);
  acquired_tick = some 4;
}

recalled_inactive : raid_active (recall_raid raid) ≡ false
unfolding raid_active recall_raid
recalled_inactive = refl
