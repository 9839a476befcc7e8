-- ===== src/Migration/StateMachine.antt =====
-- migration/state_machine.py: the pure state machine of the migration conductor. Values that are no
-- member of the two enums, which the code rejects, are ruled out by the types.
pub mod Safety
pub mod Recovery
mod Tests
use arena_hero_agent.Prelude.{Bool, true, false, if◌then◌else◌}

pub data MigrationState : Type 0 where
  idle plan leg_move leg_settle defensive_hold recovery_abort arrived abort : MigrationState

pub data MigrationEventType : Type 0 where
  intent_accepted plan_audited plan_rejected leg_burst_done leg_settle_done : MigrationEventType
  core_damaged threat_cleared threat_escalated replan_requested : MigrationEventType
  core_destroyed core_generation_changed cancel : MigrationEventType
  arrived_settle_done cleaned recovery_done : MigrationEventType

-- The field `type` is `event_type` here.
pub record MigrationEvent : Type 0 where
  pub event_type : MigrationEventType
  pub last_leg : Bool

-- Membership in `_ACTIVE_PHASES`.
abbrev pub active_phase : MigrationState → Bool
active_phase plan = true
active_phase leg_move = true
active_phase leg_settle = true
active_phase defensive_hold = true
active_phase _ = false

-- Membership in `_CANCEL_NOOP`.
abbrev pub cancel_noop : MigrationState → Bool
cancel_noop idle = true
cancel_noop abort = true
cancel_noop recovery_abort = true
cancel_noop arrived = true
cancel_noop _ = false

abbrev pub is_core_loss : MigrationEventType → Bool
is_core_loss core_destroyed = true
is_core_loss core_generation_changed = true
is_core_loss _ = false

abbrev pub is_cancel : MigrationEventType → Bool
is_cancel cancel = true
is_cancel _ = false

-- The tests on the state, in the order of the code.
abbrev phase_transition : MigrationState → MigrationEventType → (last_leg : Bool) → MigrationState
phase_transition idle intent_accepted _ = plan
phase_transition plan plan_audited _ = leg_move
phase_transition plan plan_rejected _ = abort
phase_transition leg_move leg_burst_done _ = leg_settle
phase_transition leg_move core_damaged _ = defensive_hold
phase_transition leg_settle leg_settle_done last_leg = if last_leg then arrived else leg_move
phase_transition leg_settle core_damaged _ = defensive_hold
phase_transition leg_settle replan_requested _ = plan
phase_transition leg_settle threat_escalated _ = abort
phase_transition defensive_hold threat_cleared _ = leg_settle
phase_transition defensive_hold threat_escalated _ = abort
phase_transition defensive_hold replan_requested _ = plan
phase_transition arrived arrived_settle_done _ = idle
phase_transition abort cleaned _ = idle
phase_transition recovery_abort recovery_done _ = idle
phase_transition state _ _ = state

pub transition : MigrationState → MigrationEvent → MigrationState
transition state event =
    if is_core_loss event.event_type
    then (if active_phase state then recovery_abort else state)
    else if is_cancel event.event_type
    then (if cancel_noop state then state else abort)
    else phase_transition state event.event_type event.last_leg
