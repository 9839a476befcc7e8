-- ===== src/Strategies/RaidQuota/Quotas.antt =====
-- strategies/raid_quota.py: what `core_assault_quota`, `strike_group_quota` and `select_strike_group`
-- commit, and what they keep back.
use arena_hero_agent.Prelude.{
  ℕ, zero, suc, ◌+◌, ◌-◌, ◌≤◌, ◌<◌, ◌≡◌, refl, min, max, true, String, List, [], ◌∷◌, length, drop,
  length-drop, map, sym, arith,
}
use arena_hero_agent.Prelude.Dict.{mem_text}
use arena_hero_agent.Prelude.Sort.{sort_by, text_leq, sum_of, sum_of-sort_by, mem_text-sort_by}
use arena_hero_agent.Strategies.RaidQuota.{
  core_assault_quota, strike_group_quota, last_sorted, select_strike_group,
}

-- The assault gets what it asks for or all that is beyond the home reserve, whichever is less: the
-- units that stay are at least the reserve, or all there are, and an assault that is cut short
-- leaves no unit beyond the reserve idle.
pub core_assault_quota_lem :
    (available_v available_r home_v home_r assault_v assault_r : ℕ)
    → let quota = core_assault_quota available_v available_r home_v home_r assault_v assault_r in
      (quota.vanguard_count + min home_v available_v ≤ available_v)
      × (quota.ranger_count + min home_r available_r ≤ available_r)
      × (quota.vanguard_count ≤ assault_v)
      × (quota.ranger_count ≤ assault_r)
      × (quota.vanguard_count < assault_v → available_v ≤ quota.vanguard_count + home_v)
      × (quota.ranger_count < assault_r → available_r ≤ quota.ranger_count + home_r)
unfolding core_assault_quota
core_assault_quota_lem available_v available_r home_v home_r assault_v assault_r = ground arith

-- A list's length as a sum that no sort changes.
length_as_sum : (ids : List String) → length ids ≡ sum_of (λ _. 1) ids
length_as_sum [] = refl
length_as_sum (x ∷ ids) = omega (arith, length_as_sum ids)

length_sorted : (ids : List String) → length (sort_by text_leq ids) ≡ length ids
length_sorted ids = omega (
  arith,
  length_as_sum ids,
  length_as_sum (sort_by text_leq ids),
  sum_of-sort_by text_leq (λ _. 1) ids,
)

length-last_sorted : (n : ℕ) (ids : List String) → length (last_sorted n ids) ≡ min n (length ids)
unfolding last_sorted
length-last_sorted n ids = ground (
  arith,
  length_sorted ids,
  length-drop (length (sort_by text_leq ids) - n) (sort_by text_leq ids),
)

mem_text-drop :
    (k : String) (n : ℕ) (ids : List String)
    → mem_text k (drop n ids) ≡ true
    → mem_text k ids ≡ true
unfolding mem_text
mem_text-drop k zero ids h = h
mem_text-drop k (suc n) [] h = h
mem_text-drop k (suc n) (x ∷ ids) h = ground (arith, mem_text-drop k n ids)

map_same : (ids : List String) → map (λ id. id) ids ≡ ids
map_same [] = refl
map_same (x ∷ ids) = rw (map_same ids)

mem_text-sorted :
    (k : String) (ids : List String) → mem_text k (sort_by text_leq ids) ≡ mem_text k ids
mem_text-sorted k ids = rw (
  sym (map_same (sort_by text_leq ids)),
  mem_text-sort_by text_leq (λ id. id) k ids,
  map_same ids,
)

-- Among the selected there are only units that were offered.
mem_text-last_sorted :
    (k : String) (n : ℕ) (ids : List String)
    → mem_text k (last_sorted n ids) ≡ true
    → mem_text k ids ≡ true
unfolding last_sorted mem_text
mem_text-last_sorted k n ids h =
    let sorted = sort_by text_leq ids in
    ground (arith, mem_text-sorted k ids, mem_text-drop k (length sorted - n) sorted)

-- A strike group that is sized for a target and selected among the units has just the counts of its
-- quota, at most the cap of rangers, and only units that were offered. Each unit deals one damage: the
-- vanguards never deal more than what the rangers leave, and if the target outlives the strike, then
-- all vanguards but the reserve, or a single one, strike.
pub strike_group_lem :
    (health : ℕ) (vanguards rangers : List String) (vanguard_reserve ranger_reserve ranger_cap : ℕ)
    (unit : String)
    → let quota =
        strike_group_quota health
          (length vanguards)
          (length rangers)
          vanguard_reserve
          ranger_reserve
          ranger_cap in
      let group = select_strike_group vanguards rangers quota in
      let strike = length group.vanguard_ids + length group.ranger_ids in
      (length group.ranger_ids ≡ quota.ranger_count)
      × (length group.vanguard_ids ≡ quota.vanguard_count)
      × (length group.ranger_ids ≤ ranger_cap)
      × (length group.vanguard_ids ≤ health - length group.ranger_ids)
      × (strike < health
          → length group.vanguard_ids
            ≡ min (length vanguards) (max 1 (length vanguards - vanguard_reserve)))
      × (mem_text unit group.vanguard_ids ≡ true → mem_text unit vanguards ≡ true)
      × (mem_text unit group.ranger_ids ≡ true → mem_text unit rangers ≡ true)
unfolding strike_group_quota select_strike_group
strike_group_lem health vanguards rangers vanguard_reserve ranger_reserve ranger_cap unit =
    let quota =
      strike_group_quota health (length vanguards) (length rangers) vanguard_reserve ranger_reserve
        ranger_cap in
    ground (
      arith,
      length-last_sorted quota.vanguard_count vanguards,
      length-last_sorted quota.ranger_count rangers,
      mem_text-last_sorted unit quota.vanguard_count vanguards,
      mem_text-last_sorted unit quota.ranger_count rangers,
    )
