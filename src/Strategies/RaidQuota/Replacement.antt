-- ===== src/Strategies/RaidQuota/Replacement.antt =====
-- strategies/raid_quota.py: the counts of the replacement queue after a tick, and the order of its gaps.
use arena_hero_agent.Prelude.{
  ℕ, zero, suc, ◌≡◌, refl, ap, ◌∙◌, false, String, none, List, [], ◌∷◌, str_eq, eq_iff, inl, inr,
  arith, Bool-cases, if◌then◌else◌,
}
use arena_hero_agent.Prelude.Int.{ℤ, pos, ◌+ℤ◌, ◌-ℤ◌, ltb_ℤ, +ℤ_parts, -ℤ_parts, eq_of_parts}
use arena_hero_agent.Prelude.Dict.{
  Dict, keys, lookup, insert, mem_text, lookup-insert, mem_text-keys, mem_text-keys-insert,
}
use arena_hero_agent.Prelude.Sort.{has_duplicate, mem_text-sort_by}
use arena_hero_agent.Strategies.RaidQuota.{
  count_of, positive, ReplacementQueue, missing, adjust, reconcile_replacement_queue,
  replacement_gap_order, gap_leq, ranks_from,
}

-- How many of the units have the role and are not among the others.
abbrev pub departed : String → (others units : Dict String) → ℕ
departed role others [] = 0
departed role others ((unit, r) ∷ units) =
    let rest = departed role others units in
    if mem_text unit (keys others) then rest else if str_eq role r then suc rest else rest

abbrev repeat : ℕ → (ℤ → ℤ) → ℤ → ℤ
repeat zero f n = n
repeat (suc k) f n = repeat k f (f n)

count_of-insert :
    (role r : String) (n : ℤ) (counts : Dict ℤ)
    → count_of role (insert r n counts) ≡ (if str_eq role r then n else count_of role counts)
count_of-insert role r n counts = ground (arith, lookup-insert r role n counts)

repeat_add : (k : ℕ) (n : ℤ) → repeat k (λ n. n +ℤ pos 1) n ≡ n +ℤ pos k
repeat_add zero n = eq_of_parts n (n +ℤ pos 0) (omega (arith, +ℤ_parts n (pos 0)))
repeat_add (suc k) n =
    repeat_add k (n +ℤ pos 1)
    ∙ eq_of_parts ((n +ℤ pos 1) +ℤ pos k) (n +ℤ pos (suc k))
        (omega (arith, +ℤ_parts n (pos 1), +ℤ_parts (n +ℤ pos 1) (pos k), +ℤ_parts n (pos (suc k))))

repeat_sub : (k : ℕ) (n : ℤ) → repeat k (λ n. n -ℤ pos 1) n ≡ n -ℤ pos k
repeat_sub zero n = eq_of_parts n (n -ℤ pos 0) (omega (arith, -ℤ_parts n (pos 0)))
repeat_sub (suc k) n =
    repeat_sub k (n -ℤ pos 1)
    ∙ eq_of_parts ((n -ℤ pos 1) -ℤ pos k) (n -ℤ pos (suc k))
        (omega (arith, -ℤ_parts n (pos 1), -ℤ_parts (n -ℤ pos 1) (pos k), -ℤ_parts n (pos (suc k))))

module _ (change : ℤ → ℤ) (others : Dict String) where
  count_of-adjust :
      (role : String) (units : Dict String) (counts : Dict ℤ)
      → count_of role (adjust change others units counts)
        ≡ repeat (departed role others units) change (count_of role counts)
  unfolding adjust
  count_of-adjust role [] counts = refl
  count_of-adjust role ((unit, r) ∷ units) counts =
      elim (Bool-cases (mem_text unit (keys others))) [
        | inl here ↦ rw (here, count_of-adjust role units counts)
        | inr gone ↦
            let counts' = insert r (change (count_of r counts)) counts in
            rw
              (
                gone,
                count_of-adjust role units counts',
                count_of-insert role r (change (count_of r counts)) counts,
              )
              (elim (Bool-cases (str_eq role r)) [
                | inl same ↦ ground (arith, eq_iff role r)
                | inr other ↦ rw other
              ])
      ]

has_duplicate-insert :
    (role : String) (n : ℤ) (counts : Dict ℤ)
    → has_duplicate (keys (insert role n counts)) ≡ has_duplicate (keys counts)
unfolding has_duplicate insert mem_text
has_duplicate-insert role n [] = refl
has_duplicate-insert role n ((r, m) ∷ counts) = ground (
  arith,
  eq_iff role r,
  eq_iff r role,
  mem_text-keys-insert role r n counts,
  has_duplicate-insert role n counts,
)

has_duplicate-adjust :
    (change : ℤ → ℤ) (others units : Dict String) (counts : Dict ℤ)
    → has_duplicate (keys counts) ≡ false
    → has_duplicate (keys (adjust change others units counts)) ≡ false
unfolding adjust
has_duplicate-adjust change others [] counts d = d
has_duplicate-adjust change others ((unit, r) ∷ units) counts d =
    let counts' = insert r (change (count_of r counts)) counts in
    elim (Bool-cases (mem_text unit (keys others))) [
      | inl here ↦ rw here (has_duplicate-adjust change others units counts d)
      | inr gone ↦ rw gone (
          has_duplicate-adjust change others units counts'
            (has_duplicate-insert r (change (count_of r counts)) counts ∙ d))
    ]

-- The counts that a queue keeps: a count that is not positive reads as 0.
abbrev pub clamp : ℤ → ℤ
clamp n = if ltb_ℤ (pos 0) n then n else pos 0

lookup_absent :
    (role : String) (counts : Dict ℤ)
    → mem_text role (keys counts) ≡ false
    → lookup role counts ≡ none
lookup_absent role counts h = ground (arith, mem_text-keys role counts)

mem_text-positive :
    (role : String) (counts : Dict ℤ)
    → mem_text role (keys counts) ≡ false
    → mem_text role (keys (positive counts)) ≡ false
unfolding positive mem_text
mem_text-positive role [] h = refl
mem_text-positive role ((r, n) ∷ counts) h = ground (arith, mem_text-positive role counts)

count_of-positive :
    (role : String) (counts : Dict ℤ)
    → has_duplicate (keys counts) ≡ false
    → count_of role (positive counts) ≡ clamp (count_of role counts)
unfolding positive has_duplicate lookup
count_of-positive role [] d = refl
count_of-positive role ((r, n) ∷ counts) d = ground (
  arith,
  eq_iff role r,
  mem_text-positive r counts,
  lookup_absent r (positive counts),
  count_of-positive role counts,
)

has_duplicate-positive :
    (counts : Dict ℤ)
    → has_duplicate (keys counts) ≡ false
    → has_duplicate (keys (positive counts)) ≡ false
unfolding positive has_duplicate
has_duplicate-positive [] d = refl
has_duplicate-positive ((r, n) ∷ counts) d =
    ground (arith, mem_text-positive r counts, has_duplicate-positive counts)

member_lem :
    (role : String) (counts : Dict ℤ)
    → has_duplicate (keys counts) ≡ false
    → mem_text role (keys (positive counts)) ≡ ltb_ℤ (pos 0) (count_of role counts)
unfolding positive has_duplicate lookup mem_text
member_lem role [] d = refl
member_lem role ((r, n) ∷ counts) d = ground (
  arith,
  eq_iff role r,
  mem_text-positive r counts,
  lookup_absent r counts,
  member_lem role counts,
)

-- After a tick a role misses what it missed before, one more for each unit of the role that is gone,
-- one less for each that is new, and 0 where that is negative. The order of the gaps, for whatever
-- order of the roles, names just the roles that miss a unit. The queue counts each role once.
pub reconcile_lem :
    (previous current : Dict String) (queue : ReplacementQueue) (role : String)
    (role_order : List String)
    → has_duplicate (keys queue.counts) ≡ false
    → let after = reconcile_replacement_queue previous current queue in
      (missing role after
        ≡ clamp (
            (missing role queue +ℤ pos (departed role current previous))
            -ℤ pos (departed role previous current)))
      × (mem_text role (replacement_gap_order after role_order)
          ≡ ltb_ℤ (pos 0) (missing role after))
      × (has_duplicate (keys after.counts) ≡ false)
unfolding reconcile_replacement_queue replacement_gap_order
reconcile_lem previous current queue role role_order d =
    let enqueued = adjust (λ n. n +ℤ pos 1) current previous queue.counts in
    let drained = adjust (λ n. n -ℤ pos 1) previous current enqueued in
    let e = has_duplicate-adjust (λ n. n +ℤ pos 1) current previous queue.counts d in
    let f = has_duplicate-adjust (λ n. n -ℤ pos 1) previous current enqueued e in
    let kept = has_duplicate-positive drained f in
    let ranked = ranks_from 0 role_order [] in
    (
      count_of-positive role drained f
          ∙ ap clamp (
              count_of-adjust (λ n. n -ℤ pos 1) previous role current enqueued
              ∙ repeat_sub (departed role previous current) (count_of role enqueued)
              ∙ ap (λ n. n -ℤ pos (departed role previous current))
                  (count_of-adjust (λ n. n +ℤ pos 1) current role previous queue.counts
                    ∙ repeat_add (departed role current previous) (missing role queue))),
      mem_text-sort_by (gap_leq ranked) (λ gap. gap.0) role (positive (positive drained))
          ∙ member_lem role (positive drained) kept,
      kept,
    )
