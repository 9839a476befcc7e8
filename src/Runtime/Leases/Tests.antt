-- ===== src/Runtime/Leases/Tests.antt =====
-- The coordinator on small inputs, and the theorems at them.
use arena_hero_agent.Prelude.{ℕ, ◌≡◌, ◌≢◌, refl, true, false, none, arith}
use arena_hero_agent.Prelude.Exceptions.{ok}
use arena_hero_agent.Domain.ValueObjects.{DeadlineBudget, Generation, FencingToken, supersedes}
use arena_hero_agent.Runtime.Leases.{
  active, expired, replaced, writer, Coordinator, no_handle, new_coordinator, disposition,
  acquire_writer, replace_writer, renew, release,
}
use arena_hero_agent.Runtime.Leases.Invariant.{IsValid, new_coordinator-IsValid}
use arena_hero_agent.Runtime.Leases.Run.{
  Reach, here, next, Step, acquiring_writer, replacing_writer, Reach-IsValid,
}
use arena_hero_agent.Runtime.Leases.Exclusion.{
  active_handle_unique, fencing_tokens_increase, dead_handle_stays_dead,
}
use arena_hero_agent.Runtime.Leases.Lifecycle.{renew_marks_replaced}

abbrev start : Coordinator
start = record {
  lease_duration_ns = 10;
  slots = λ k t. none;
  next_handle = 0;
  handles = λ p. no_handle;
}

abbrev gen : Generation
gen = record { value = 0 }

abbrev budget : DeadlineBudget
budget = record { nanoseconds = 5 }

abbrev token : ℕ → FencingToken
token n = record { value = n }

-- At 100 a writer lease is taken, at 110 it is replaced.
abbrev held : Coordinator
held = (acquire_writer "a" gen budget 100 start).1

abbrev taken_over : Coordinator
taken_over = (replace_writer "a" gen (token 1) budget 110 110 held).1

new_coordinator-start : new_coordinator 10 ≡ ok start
unfolding new_coordinator
new_coordinator-start = refl

held-Reach : Reach start held
held-Reach = next here (acquiring_writer "a" gen budget 100)

taken_over-Reach : Reach start taken_over
taken_over-Reach = next held-Reach (replacing_writer "a" gen (token 1) budget 110 110)

start-IsValid : IsValid start
start-IsValid = new_coordinator-IsValid 10 start new_coordinator-start

held-IsValid : IsValid held
held-IsValid = Reach-IsValid held-Reach start-IsValid

next_handle-taken_over : taken_over.next_handle ≡ 2
unfolding acquire_writer replace_writer
next_handle-taken_over = refl

taken_over_dispositions :
    (disposition 0 110 taken_over ≡ replaced)
    × (disposition 1 110 taken_over ≡ active)
    × (disposition 0 110 held ≡ expired)
unfolding acquire_writer replace_writer disposition
taken_over_dispositions = (refl, refl, refl)

active_handle_unique_example : ◌≡◌ {A = ℕ} 1 1
unfolding acquire_writer replace_writer disposition
active_handle_unique_example =
    active_handle_unique 10 {s = taken_over} 1 1 110 115 new_coordinator-start taken_over-Reach
      (omega arith) (omega arith) refl refl refl refl

fencing_tokens_increase_example : supersedes (token 2) (token 1) ≡ true
unfolding acquire_writer replace_writer
fencing_tokens_increase_example =
    fencing_tokens_increase 10 {s = taken_over} 0 1 new_coordinator-start taken_over-Reach
      (omega arith) (omega arith) refl refl

dead_handle_stays_dead_example :
    (disposition 0 200 (release 1 taken_over).1 ≢ active)
    × (((release 1 taken_over).1.handles 0).tenant_id ≡ "a")
    × (((release 1 taken_over).1.handles 0).kind ≡ writer)
    × (((release 1 taken_over).1.handles 0).fencing_token ≡ token 1)
unfolding acquire_writer replace_writer
dead_handle_stays_dead_example =
    dead_handle_stays_dead {s = taken_over} 0 200 (next here (Step.releasing 1 (omega arith)))
      (omega arith) (ground arith)

renew_marks_replaced_example :
    ((renew 0 budget 104 104 (release 0 held).1).0 ≡ ok false)
    × (disposition 0 105 (renew 0 budget 104 104 (release 0 held).1).1 ≡ replaced)
unfolding acquire_writer release
renew_marks_replaced_example =
    renew_marks_replaced 0 budget 104 104 105 (release 0 held).1
      (Reach-IsValid (next held-Reach (Step.releasing 0 (omega arith))) start-IsValid) (omega arith)
      refl (ground arith)
