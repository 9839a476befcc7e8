-- ===== src/Alliance/CommandBus/Pending.antt =====
-- What the bus yields as pending.
use mathlib.Core.Path.{subst}
use arena_hero_agent.Prelude.{
  ◌≡◌, sym, ap, ◌∙◌, ◌↔◌, inl, inr, false, List, [], ◌∷◌, if◌then◌else◌, arith, Bool-cases,
}
use arena_hero_agent.Prelude.Sort.{Among}
use arena_hero_agent.Prelude.Exceptions.{ok}
use arena_hero_agent.Domain.ValueObjects.{TenantId}
use arena_hero_agent.Alliance.Commands.{DirectorCommand}
use arena_hero_agent.Alliance.CommandBus.{
  AppliedEntry, Bus, empty_bus, is_among, not_applied, pending,
}
use arena_hero_agent.Alliance.CommandBus.Marks.{Run, Run-IsRecord}

pending_sound :
    (command : DirectorCommand) (commands : List DirectorCommand) (entries : List AppliedEntry)
    → Among command (not_applied commands entries)
    → Among command commands × (is_among command entries ≡ false)
unfolding not_applied
pending_sound command [] entries h = absurd h.lower
pending_sound command (first ∷ commands) entries h = elim (Bool-cases (is_among first entries)) [
  | inl among ↦
      let (listed, fresh) = pending_sound command commands entries (
        subst
          (λ b.
            Among command
              (if b then not_applied commands entries else first ∷ not_applied commands entries))
          among h) in
      (inr listed, fresh)
  | inr fresh ↦
      elim (subst
        (λ b.
          Among command
            (if b then not_applied commands entries else first ∷ not_applied commands entries))
        fresh h) [
          | inl e ↦ (inl e, rw e fresh)
          | inr rest ↦
              let (listed, fresh') = pending_sound command commands entries rest in
              (inr listed, fresh')
        ]
]

pending_complete :
    (command : DirectorCommand) (commands : List DirectorCommand) (entries : List AppliedEntry)
    → Among command commands
    → is_among command entries ≡ false
    → Among command (not_applied commands entries)
unfolding not_applied
pending_complete command [] entries h fresh = absurd h.lower
pending_complete command (first ∷ commands) entries (inl e) fresh =
    rw (sym (ap (λ c. is_among c entries) e) ∙ fresh, not_applied) (inl e)
pending_complete command (first ∷ commands) entries (inr h) fresh =
    elim (Bool-cases (is_among first entries)) [
      | inl among ↦ rw (among, not_applied) (pending_complete command commands entries h fresh)
      | inr other ↦
          rw (other, not_applied) (inr (pending_complete command commands entries h fresh))
    ]

-- In every interleaving on an empty bus `pending` does not raise, and what it yields are the
-- commands of the tenant's ledger whose id and idempotency key are not in the record: all of them,
-- and no other.
pub pending_lem :
    (t : TenantId) (command : DirectorCommand) {bus : Bus}
    → Run empty_bus bus
    → (commands : List DirectorCommand) × (pending t bus ≡ ok commands)
      × (Among command commands
          ↔ (Among command (bus t).commands × (is_among command (bus t).applied.entries ≡ false)))
unfolding pending
pending_lem t command {bus} run = (
  not_applied (bus t).commands (bus t).applied.entries,
  ground (arith, Run-IsRecord t run),
  (
    pending_sound command (bus t).commands (bus t).applied.entries,
    λ h. pending_complete command (bus t).commands (bus t).applied.entries h.0 h.1,
  ),
)
