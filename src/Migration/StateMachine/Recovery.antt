-- ===== src/Migration/StateMachine/Recovery.antt =====
-- Interruption and recovery: the loss of the core, cancellation, and the way back to IDLE.
use arena_hero_agent.Prelude.{◌≡◌, ◌≢◌, refl, Bool, true, false, List, [], ◌∷◌, arith}
use arena_hero_agent.Migration.StateMachine.{
  MigrationState, MigrationEventType, MigrationEvent, idle, leg_settle, recovery_abort, arrived,
  cancel, arrived_settle_done, cleaned, recovery_done, leg_settle_done, active_phase, is_core_loss,
  transition,
}
use arena_hero_agent.Migration.StateMachine.Safety.{run}

abbrev is_recovery_done : MigrationEventType → Bool
is_recovery_done recovery_done = true
is_recovery_done _ = false

-- None of the events reports that recovery is done.
abbrev pub NoRecovery : List MigrationEvent → Type 0
NoRecovery [] = Unit
NoRecovery (e ∷ events) = (e.event_type ≢ recovery_done) × NoRecovery events

recovery_abort_step :
    (t : MigrationEventType) (l : Bool)
    → t ≢ recovery_done
    → transition recovery_abort (record { event_type = t; last_leg = l }) ≡ recovery_abort
unfolding transition
recovery_abort_step recovery_done l h = absurd (h refl)
recovery_abort_step _ l h = refl

recovery_abort_stays :
    (events : List MigrationEvent) → NoRecovery events → run recovery_abort events ≡ recovery_abort
unfolding run
recovery_abort_stays [] h = refl
recovery_abort_stays (e ∷ events) h =
    rw (recovery_abort_step e.event_type e.last_leg h.0) (recovery_abort_stays events h.1)

-- Once the core is destroyed or its generation changes in an active phase, the conductor stays in
-- RECOVERY_ABORT whatever follows, until an event reports that recovery is done.
pub core_loss_blocks_resume :
    (s : MigrationState) (e : MigrationEvent) (events : List MigrationEvent)
    → active_phase s ≡ true
    → is_core_loss e.event_type ≡ true
    → NoRecovery events
    → run s (e ∷ events) ≡ recovery_abort
unfolding run transition
core_loss_blocks_resume s e events active lost h = rw (lost, active) (recovery_abort_stays events h)

abbrev pub event : MigrationEventType → MigrationEvent
event t = record { event_type = t; last_leg = false }

-- From every state the same four events bring the conductor back to IDLE.
pub drain_reaches_idle :
    (s : MigrationState)
    → run s (event cancel ∷ event cleaned ∷ event recovery_done ∷ event arrived_settle_done ∷ [])
      ≡ idle
unfolding run transition
drain_reaches_idle s = ground arith

-- The conductor comes to ARRIVED from another state only from LEG_SETTLE, by the event that the leg
-- has settled with its mark that the leg was the last.
pub arrives_after_last_leg :
    (s : MigrationState) (e : MigrationEvent)
    → transition s e ≡ arrived
    → s ≢ arrived
    → (s ≡ leg_settle) × (e.event_type ≡ leg_settle_done) × (e.last_leg ≡ true)
unfolding transition
arrives_after_last_leg s e h other = ground arith
