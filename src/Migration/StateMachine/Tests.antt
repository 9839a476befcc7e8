-- ===== src/Migration/StateMachine/Tests.antt =====
-- The state machine on small inputs, and the theorems at them.
use mathlib.Core.List.{Sublist}
use arena_hero_agent.Prelude.{◌≡◌, refl, true, List, [], ◌∷◌}
use arena_hero_agent.Migration.StateMachine.{
  MigrationEvent, idle, leg_settle, intent_accepted, plan_audited, leg_burst_done, leg_settle_done,
  transition,
}
use arena_hero_agent.Migration.StateMachine.Safety.{run, event_types, moving_needs_audit}
use arena_hero_agent.Migration.StateMachine.Recovery.{event}

abbrev last_settled : MigrationEvent
last_settled = record { event_type = leg_settle_done; last_leg = true }

abbrev journey : List MigrationEvent
journey = event intent_accepted ∷ event plan_audited ∷ event leg_burst_done ∷ []

run-journey : run idle journey ≡ leg_settle
unfolding run transition
run-journey = refl

moving_needs_audit_example : Sublist (intent_accepted ∷ plan_audited ∷ []) (event_types journey)
unfolding run transition
moving_needs_audit_example = moving_needs_audit journey refl
