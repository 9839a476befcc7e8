-- ===== src/Migration/StateMachine/Safety.antt =====
-- What the state machine never does: it moves only along the table, and it never moves a core
-- whose route has not been audited.
use arena_hero_agent.Prelude.{
  ◌≡◌, ◌≢◌, ◌↔◌, ◌⊎◌, refl, sym, ◌∙◌, inl, inr, Bool, true, false, List, [], ◌∷◌, map, arith,
}
use mathlib.Core.Path.{subst}
use mathlib.Core.List.Sublist
use mathlib.Core.List.{Sublist, nil-sublist, sublist_of_cons-sublist}
use arena_hero_agent.Migration.StateMachine.{
  MigrationState, MigrationEventType, MigrationEvent, idle, plan, leg_move, leg_settle,
  defensive_hold, recovery_abort, arrived, abort, intent_accepted, plan_audited, plan_rejected,
  leg_burst_done, leg_settle_done, core_damaged, threat_cleared, threat_escalated, replan_requested,
  core_destroyed, core_generation_changed, cancel, arrived_settle_done, cleaned, recovery_done,
  active_phase, transition,
}

-- The state table of the design, as a relation: the transitions that change the state.
pub data Legal : MigrationState → MigrationEvent → MigrationState → Type 0 where
  accepted : (l : Bool) → Legal idle (record { event_type = intent_accepted; last_leg = l }) plan
  audited : (l : Bool) → Legal plan (record { event_type = plan_audited; last_leg = l }) leg_move
  rejected : (l : Bool) → Legal plan (record { event_type = plan_rejected; last_leg = l }) abort
  burst_done :
      (l : Bool) → Legal leg_move (record { event_type = leg_burst_done; last_leg = l }) leg_settle
  damaged_moving :
      (l : Bool)
      → Legal leg_move (record { event_type = core_damaged; last_leg = l }) defensive_hold
  damaged_settling :
      (l : Bool)
      → Legal leg_settle (record { event_type = core_damaged; last_leg = l }) defensive_hold
  next_leg : Legal leg_settle (record { event_type = leg_settle_done; last_leg = false }) leg_move
  final_leg : Legal leg_settle (record { event_type = leg_settle_done; last_leg = true }) arrived
  replanned :
      (l : Bool) → Legal leg_settle (record { event_type = replan_requested; last_leg = l }) plan
  replanned_holding :
      (l : Bool)
      → Legal defensive_hold (record { event_type = replan_requested; last_leg = l }) plan
  escalated :
      (l : Bool) → Legal leg_settle (record { event_type = threat_escalated; last_leg = l }) abort
  escalated_holding :
      (l : Bool)
      → Legal defensive_hold (record { event_type = threat_escalated; last_leg = l }) abort
  threat_gone :
      (l : Bool)
      → Legal defensive_hold (record { event_type = threat_cleared; last_leg = l }) leg_settle
  settled :
      (l : Bool) → Legal arrived (record { event_type = arrived_settle_done; last_leg = l }) idle
  abort_cleaned : (l : Bool) → Legal abort (record { event_type = cleaned; last_leg = l }) idle
  recovered :
      (l : Bool) → Legal recovery_abort (record { event_type = recovery_done; last_leg = l }) idle
  cancelled :
      (s : MigrationState) (l : Bool)
      → active_phase s ≡ true
      → Legal s (record { event_type = cancel; last_leg = l }) abort
  destroyed :
      (s : MigrationState) (l : Bool)
      → active_phase s ≡ true
      → Legal s (record { event_type = core_destroyed; last_leg = l }) recovery_abort
  respawned :
      (s : MigrationState) (l : Bool)
      → active_phase s ≡ true
      → Legal s (record { event_type = core_generation_changed; last_leg = l }) recovery_abort

transition_of_Legal :
    {s s' : MigrationState} {e : MigrationEvent} → Legal s e s' → transition s e ≡ s'
unfolding transition
transition_of_Legal (cancelled s l h) = ground arith
transition_of_Legal (destroyed s l h) = ground arith
transition_of_Legal (respawned s l h) = ground arith
transition_of_Legal _ = refl

step_cases :
    (s : MigrationState) (t : MigrationEventType) (l : Bool)
    → let e : MigrationEvent = record { event_type = t; last_leg = l } in
      (transition s e ≡ s) ⊎ Legal s e (transition s e)
unfolding transition
step_cases plan cancel l = inr (cancelled plan l refl)
step_cases plan core_destroyed l = inr (destroyed plan l refl)
step_cases plan core_generation_changed l = inr (respawned plan l refl)
step_cases leg_move cancel l = inr (cancelled leg_move l refl)
step_cases leg_move core_destroyed l = inr (destroyed leg_move l refl)
step_cases leg_move core_generation_changed l = inr (respawned leg_move l refl)
step_cases leg_settle cancel l = inr (cancelled leg_settle l refl)
step_cases leg_settle core_destroyed l = inr (destroyed leg_settle l refl)
step_cases leg_settle core_generation_changed l = inr (respawned leg_settle l refl)
step_cases defensive_hold cancel l = inr (cancelled defensive_hold l refl)
step_cases defensive_hold core_destroyed l = inr (destroyed defensive_hold l refl)
step_cases defensive_hold core_generation_changed l = inr (respawned defensive_hold l refl)
step_cases idle intent_accepted l = inr (accepted l)
step_cases plan plan_audited l = inr (audited l)
step_cases plan plan_rejected l = inr (rejected l)
step_cases leg_move leg_burst_done l = inr (burst_done l)
step_cases leg_move core_damaged l = inr (damaged_moving l)
step_cases leg_settle core_damaged l = inr (damaged_settling l)
step_cases leg_settle replan_requested l = inr (replanned l)
step_cases defensive_hold replan_requested l = inr (replanned_holding l)
step_cases leg_settle threat_escalated l = inr (escalated l)
step_cases defensive_hold threat_escalated l = inr (escalated_holding l)
step_cases defensive_hold threat_cleared l = inr (threat_gone l)
step_cases arrived arrived_settle_done l = inr (settled l)
step_cases abort cleaned l = inr (abort_cleaned l)
step_cases recovery_abort recovery_done l = inr (recovered l)
step_cases leg_settle leg_settle_done true = inr final_leg
step_cases leg_settle leg_settle_done false = inr next_leg
step_cases _ _ l = inl refl

-- A transition leads from a state to a different one exactly along the rows of the state table:
-- every row between different states is taken, and a pair of a state and an event that is in no
-- such row leaves the state as it is.
pub transition_follows_table :
    (s s' : MigrationState) (e : MigrationEvent)
    → ((transition s e ≡ s') × (s ≢ s')) ↔ (Legal s e s' × (s ≢ s'))
transition_follows_table s s' e = (
  λ h. (
    elim (step_cases s e.event_type e.last_leg) [
      | inl same ↦ absurd (h.1 (sym same ∙ h.0))
      | inr legal ↦ subst (Legal s e) h.0 legal
    ],
    h.1,
  ),
  λ h. (transition_of_Legal h.0, h.1),
)

-- A conductor that folds a sequence of events, oldest first.
unfoldable pub run : MigrationState → List MigrationEvent → MigrationState
run state [] = state
run state (event ∷ events) = run (transition state event) events

abbrev pub event_types : List MigrationEvent → List MigrationEventType
event_types events = map (λ e. e.event_type) events

-- The core is on its way, settles, or holds between two legs.
abbrev pub moving : MigrationState → Bool
moving leg_move = true
moving leg_settle = true
moving defensive_hold = true
moving _ = false

-- The events that must still come before the core can be on its way.
abbrev required : MigrationState → List MigrationEventType
required plan = plan_audited ∷ []
required leg_move = []
required leg_settle = []
required defensive_hold = []
required _ = intent_accepted ∷ plan_audited ∷ []

required-step :
    (s : MigrationState) (t : MigrationEventType) (l : Bool) (ts : List MigrationEventType)
    → Sublist (required (transition s (record { event_type = t; last_leg = l }))) ts
    → Sublist (required s) (t ∷ ts)
unfolding transition
required-step idle intent_accepted l ts h = Sublist.cons-cons intent_accepted h
required-step plan plan_audited l ts h = Sublist.cons-cons plan_audited h
required-step leg_move t l ts h = nil-sublist (t ∷ ts)
required-step leg_settle t l ts h = nil-sublist (t ∷ ts)
required-step defensive_hold t l ts h = nil-sublist (t ∷ ts)
required-step plan plan_rejected l ts h = Sublist.cons plan_rejected (sublist_of_cons-sublist h)
required-step plan cancel l ts h = Sublist.cons cancel (sublist_of_cons-sublist h)
required-step plan core_destroyed l ts h = Sublist.cons core_destroyed (sublist_of_cons-sublist h)
required-step plan core_generation_changed l ts h =
    Sublist.cons core_generation_changed (sublist_of_cons-sublist h)
required-step arrived arrived_settle_done l ts h = Sublist.cons arrived_settle_done h
required-step abort cleaned l ts h = Sublist.cons cleaned h
required-step recovery_abort recovery_done l ts h = Sublist.cons recovery_done h
required-step _ t l ts h = Sublist.cons t h

required-run :
    (s : MigrationState) (events : List MigrationEvent)
    → moving (run s events) ≡ true
    → Sublist (required s) (event_types events)
unfolding run
required-run leg_move [] h = nil-sublist []
required-run leg_settle [] h = nil-sublist []
required-run defensive_hold [] h = nil-sublist []
required-run _ [] h = cc
required-run s (e ∷ events) h =
    required-step s e.event_type e.last_leg (event_types events)
      (required-run (transition s e) events h)

-- If a conductor that started in IDLE has its core on the way, settling or holding between legs,
-- then the events that it folded hold an accepted intent and, after it, an audited plan.
pub moving_needs_audit :
    (events : List MigrationEvent)
    → moving (run idle events) ≡ true
    → Sublist (intent_accepted ∷ plan_audited ∷ []) (event_types events)
moving_needs_audit events h = required-run idle events h
