-- ===== src/Strategies/MovementGuard/Backoff.antt =====
-- strategies/movement_guard.py: when a unit whose moves are blocked waits.
use arena_hero_agent.Prelude.{
  ℕ, zero, suc, ◌+◌, ◌<◌, ◌≡◌, refl, Bool, true, false, ◌&&◌, some, ltb, leb, ◌∙◌, ap, arith,
  if◌then◌else◌,
}
use arena_hero_agent.Prelude.Int.{pos}
use arena_hero_agent.Prelude.Exceptions.{Result, ok, ◌>>=◌}
use arena_hero_agent.Strategies.MovementGuard.{
  MoveBackoffState, no_backoff, update_move_backoff, should_pause_move,
}

module _ (streak pause : ℕ) where
  -- A number of blocked ticks, one after the other.
  abbrev pub blocked_ticks : ℕ → (tick : ℕ) → MoveBackoffState → Result MoveBackoffState
  blocked_ticks zero tick state = ok state
  blocked_ticks (suc n) tick state =
      update_move_backoff (some state) (pos tick) false true (pos streak) (pos pause) >>= λ next.
      blocked_ticks n (suc tick) next

  abbrev pub after_blocked : ℕ → (tick : ℕ) → MoveBackoffState → MoveBackoffState
  after_blocked zero tick state = state
  after_blocked (suc n) tick state = record {
    fail_streak = state.fail_streak + suc n;
    pause_until_tick =
        if leb streak (state.fail_streak + suc n)
        then pos (tick + n + pause)
        else state.pause_until_tick;
  }

  module _ (s : 0 < streak) (p : 0 < pause) where
    update_blocked :
        (tick : ℕ) (state : MoveBackoffState)
        → update_move_backoff (some state) (pos tick) false true (pos streak) (pos pause)
          ≡ ok (after_blocked 1 tick state)
    unfolding update_move_backoff
    update_blocked tick state = ground arith

    after_one_more :
        (n tick : ℕ) (state : MoveBackoffState)
        → after_blocked n (suc tick) (after_blocked 1 tick state) ≡ after_blocked (suc n) tick state
    after_one_more zero tick state = refl
    after_one_more (suc n) tick state = ground arith

    blocked_ticks_lem :
        (n tick : ℕ) (state : MoveBackoffState)
        → blocked_ticks n tick state ≡ ok (after_blocked n tick state)
    blocked_ticks_lem zero tick state = refl
    blocked_ticks_lem (suc n) tick state = rw (update_blocked tick state) (
        blocked_ticks_lem n (suc tick) (after_blocked 1 tick state)
        ∙ ap ok (after_one_more n tick state))

    -- From the start, `n + 1` blocked ticks in a row make the unit wait at a later reading of the tick
    -- just if they are as many as the streak and the reading is less than `pause` ticks after the last
    -- of them; a move clears all that, whatever else the tick brings. Both arguments are positive.
    pub backoff_lem :
        (n tick now : ℕ) (blocked : Bool)
        → (state : MoveBackoffState) × (blocked_ticks (suc n) tick no_backoff ≡ ok state)
          × (should_pause_move (some state) (pos now)
              ≡ ok (leb streak (suc n) && ltb now (tick + n + pause)))
          × (update_move_backoff (some state) (pos now) true blocked (pos streak) (pos pause)
              ≡ ok no_backoff)
    unfolding should_pause_move update_move_backoff
    backoff_lem n tick now blocked = (
      after_blocked (suc n) tick no_backoff,
      blocked_ticks_lem (suc n) tick no_backoff,
      ground arith,
      ground arith,
    )
