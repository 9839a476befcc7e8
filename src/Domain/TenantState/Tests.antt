-- ===== src/Domain/TenantState/Tests.antt =====
-- The reducers on two turns, and the theorems at them.
use arena_hero_agent.Prelude.{◌≡◌, ◌≢◌, refl, some, arith, String}
use arena_hero_agent.Prelude.Exceptions.{ok, raise, ownership_error}
use arena_hero_agent.Domain.Economy.Reducer.{advanced}
use arena_hero_agent.Domain.TenantState.{TenantState, reduce_turn}
use arena_hero_agent.Domain.TenantState.Reducers.{IsCoherent, Reduces, reduce_turn-Reduces}
use arena_hero_agent.Domain.TenantState.Progress.{reduce_turn_succeeds}
use arena_hero_agent.Domain.TenantState.Samples.{
  sample_digest, first_state, second_turn, first-IsSound, first-IsCoherent, second-IsTurn,
}

abbrev second_state : TenantState
second_state = record first_state {
  world = second_turn.projection;
  economy = advanced sample_digest first_state.economy second_turn.economy;
  decision_count = 1;
  last_decision_id = some "d1";
}

reduce_turn_succeeds_example :
    reduce_turn sample_digest first_state second_turn "d1" "a" ≡ ok second_state
reduce_turn_succeeds_example =
    reduce_turn_succeeds sample_digest first_state second_turn first-IsCoherent first-IsSound
      second-IsTurn refl (omega arith) "d1" (λ e. cc) (omega arith)

reduced : reduce_turn sample_digest first_state second_turn "d1" "a" ≡ ok second_state
reduced =
    reduce_turn_succeeds sample_digest first_state second_turn first-IsCoherent first-IsSound
      second-IsTurn refl (omega arith) "d1" (λ e. cc) (omega arith)

reduce_turn-Reduces_example :
    (◌≡◌ {A = String} "a" "a")
    × (first_state.last_decision_id ≢ some "d1")
    × IsCoherent second_state
    × Reduces sample_digest first_state second_turn "d1" second_state
reduce_turn-Reduces_example =
    reduce_turn-Reduces sample_digest first_state second_turn "d1" "a" first-IsCoherent reduced

stranger_refused :
    reduce_turn sample_digest first_state second_turn "d1" "b" ≡ raise ownership_error
unfolding reduce_turn
stranger_refused = refl
