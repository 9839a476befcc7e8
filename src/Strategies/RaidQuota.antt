-- ===== src/Strategies/RaidQuota.antt =====
-- strategies/raid_quota.py: how many units a raid or a strike commits, which ones, which enemy core is
-- raided, and the queue of the units to be replaced. Counts of units are numbers, frozensets are lists;
-- keyword arguments are arguments.
mod Quotas
mod Targets
mod Replacement
mod Tests
use arena_hero_agent.Prelude.{
  ℕ, suc, ◌-◌, min, max, Bool, true, false, ◌&&◌, ◌||◌, not, String, Option, none, some, List, [],
  ◌∷◌, ◌++◌, length, drop, map, str_eq, ltb, leb, ◌==◌, if◌then◌else◌,
}
use arena_hero_agent.Prelude.Int.{ℤ, pos, ◌+ℤ◌, ◌-ℤ◌, ltb_ℤ, eq_ℤ}
use arena_hero_agent.Prelude.Dict.{Dict, keys, lookup, insert, mem_text}
use arena_hero_agent.Prelude.Sort.{sort_by, text_leq}
use arena_hero_agent.Domain.ValueObjects.{Coordinate}
use arena_hero_agent.Domain.Navigation.{manhattan}

pub record UnitQuota : Type 0 where
  pub vanguard_count : ℕ
  pub ranger_count : ℕ

pub record StrikeGroup : Type 0 where
  pub vanguard_ids : List String
  pub ranger_ids : List String

pub record RaidState : Type 0 where
  pub enabled : Bool
  pub recall : Bool
  pub vanguard_ids : List String
  pub ranger_ids : List String
  pub core_id : Option String
  pub core_position : Option Coordinate
  pub acquired_tick : Option ℕ

pub record StationaryCore : Type 0 where
  pub key : String
  pub position : Coordinate
  pub observations : ℕ

-- The squad that stays behind during a raid.
pub record TacticalSquad : Type 0 where
  pub id : String
  pub role : String
  pub index : ℕ
  pub vanguard_ids : List String
  pub ranger_ids : List String

unfoldable core_assault_quota :
    (available_vanguards available_rangers home_vanguards home_rangers : ℕ)
    → (assault_vanguards assault_rangers : ℕ) → UnitQuota
core_assault_quota available_vanguards available_rangers home_vanguards home_rangers
      assault_vanguards assault_rangers =
    let home_v = min home_vanguards available_vanguards in
    let home_r = min home_rangers available_rangers in
    record {
      vanguard_count = min assault_vanguards (available_vanguards - home_v);
      ranger_count = min assault_rangers (available_rangers - home_r);
    }

-- A difference that would be negative counts as 0, under a maximum with 0 or 1 as in the source.
unfoldable strike_group_quota :
    (target_health vanguard_count ranger_count : ℕ)
    → (vanguard_reserve ranger_reserve ranger_cap : ℕ) → UnitQuota
strike_group_quota target_health vanguard_count ranger_count vanguard_reserve ranger_reserve
      ranger_cap =
    let ranger_strike = min ranger_count (min ranger_cap (max 1 (ranger_count - ranger_reserve))) in
    let remaining_damage = target_health - ranger_strike in
    record {
      vanguard_count =
          min vanguard_count (min remaining_damage (max 1 (vanguard_count - vanguard_reserve)));
      ranger_count = ranger_strike;
    }

-- `sorted(ids)[-n:] if n else ()`; a slice of more than there are is the whole list.
unfoldable last_sorted : ℕ → List String → List String
last_sorted n ids =
    let ordered = sort_by text_leq ids in if n == 0 then [] else drop (length ordered - n) ordered

unfoldable select_strike_group : List String → List String → UnitQuota → StrikeGroup
select_strike_group vanguard_ids ranger_ids quota = record {
  vanguard_ids = last_sorted quota.vanguard_count vanguard_ids;
  ranger_ids = last_sorted quota.ranger_count ranger_ids;
}

abbrev raid_guard_ids : Option TacticalSquad → List String
raid_guard_ids none = []
raid_guard_ids (some squad) = squad.vanguard_ids ++ squad.ranger_ids

abbrev is_empty : List String → Bool
is_empty [] = true
is_empty (_ ∷ _) = false

unfoldable raid_active : RaidState → Bool
raid_active state =
    state.enabled
    && not state.recall
    && (not (is_empty state.vanguard_ids) || not (is_empty state.ranger_ids))

unfoldable recall_raid : RaidState → RaidState
recall_raid state = record state {
  recall = true;
  core_id = none;
  core_position = none;
  acquired_tick = none;
}

unfoldable clear_raid_target : RaidState → RaidState
clear_raid_target state = record state {
  core_id = none;
  core_position = none;
  acquired_tick = none;
}

unfoldable acquire_raid_target : RaidState → String → Coordinate → (tick : ℕ) → RaidState
acquire_raid_target state core_id position tick = record state {
  core_id = some core_id;
  core_position = some position;
  acquired_tick = some tick;
}

-- `best_distance is None or distance < best_distance`
abbrev is_better : ℕ → Option (Coordinate × ℕ) → Bool
is_better distance none = true
is_better distance (some (_, best_distance)) = ltb distance best_distance

module _ (core_position : Coordinate) (min_observations max_distance : ℕ) where
  -- One round of the loop; the best position and its distance are one option.
  abbrev consider : Option (Coordinate × ℕ) → StationaryCore → Option (Coordinate × ℕ)
  consider best observation =
      let distance = manhattan observation.position core_position in
      if ltb observation.observations min_observations
      then best
      else if ltb max_distance distance
      then best
      else if is_better distance best
      then some (observation.position, distance)
      else best

  unfoldable pick_from : Option (Coordinate × ℕ) → List StationaryCore → Option (Coordinate × ℕ)
  pick_from best [] = best
  pick_from best (observation ∷ rest) = pick_from (consider best observation) rest

  -- The values of the dict, in their order.
  unfoldable pick_raid_target : List StationaryCore → Option Coordinate
  pick_raid_target stationary = elim (pick_from none stationary) [
    | none ↦ none
    | some (position, _) ↦ some position
  ]

abbrev raid_fighters_ready : (fighter_count min_fighters : ℕ) → Bool
raid_fighters_ready fighter_count min_fighters = leb min_fighters fighter_count

-- `counts.get(role, 0)`
abbrev count_of : String → Dict ℤ → ℤ
count_of role counts = elim (lookup role counts) [ none ↦ pos 0 | some n ↦ n ]

-- The counts that a queue retains.
unfoldable positive : Dict ℤ → Dict ℤ
positive [] = []
positive ((role, n) ∷ counts) =
    let rest = positive counts in if ltb_ℤ (pos 0) n then (role, n) ∷ rest else rest

pub record ReplacementQueue : Type 0 where
  pub counts : Dict ℤ

abbrev replacement_queue : Dict ℤ → ReplacementQueue
replacement_queue counts = record { counts = positive counts }

abbrev missing : String → ReplacementQueue → ℤ
missing role queue = count_of role queue.counts

-- One of the two loops of `reconcile_replacement_queue`: the count of the role changes for each of the
-- units that the others do not have.
unfoldable adjust : (ℤ → ℤ) → (others units : Dict String) → Dict ℤ → Dict ℤ
adjust change others [] counts = counts
adjust change others ((unit, role) ∷ units) counts = adjust change others units (
    if mem_text unit (keys others)
    then counts
    else insert role (change (count_of role counts)) counts)

unfoldable reconcile_replacement_queue :
    (previous current : Dict String) → ReplacementQueue → ReplacementQueue
reconcile_replacement_queue previous current queue =
    let enqueued = adjust (λ n. n +ℤ pos 1) current previous queue.counts in
    replacement_queue (adjust (λ n. n -ℤ pos 1) previous current enqueued)

-- `{role: index for index, role in enumerate(role_order)}`
unfoldable ranks_from : ℕ → List String → Dict ℕ → Dict ℕ
ranks_from index [] ranked = ranked
ranks_from index (role ∷ role_order) ranked =
    ranks_from (suc index) role_order (insert role index ranked)

-- `ranked.get(role, len(ranked))`
abbrev rank_in : Dict ℕ → String → ℕ
rank_in ranked role = elim (lookup role ranked) [ none ↦ length ranked | some index ↦ index ]

-- The order of the sort: descending count, then rank, then role.
abbrev gap_leq : Dict ℕ → String × ℤ → String × ℤ → Bool
gap_leq ranked (r, m) (s, n) =
    ltb_ℤ n m
    || (eq_ℤ m n
        && (ltb (rank_in ranked r) (rank_in ranked s)
            || (rank_in ranked r == rank_in ranked s && text_leq r s)))

unfoldable replacement_gap_order : ReplacementQueue → List String → List String
replacement_gap_order queue role_order =
    map (λ gap. gap.0) (sort_by (gap_leq (ranks_from 0 role_order [])) (positive queue.counts))
