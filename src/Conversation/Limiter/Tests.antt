-- ===== src/Conversation/Limiter/Tests.antt =====
-- A limiter of one turn, with two calls.
use on_call_agent.Base.{◌≤◌, refl, pos, arith}
use on_call_agent.Conversation.Limiter.{
  World, start, enter, take, here, next, new_run_limiter, close, Reach-running_bounded,
}

Reach-running_bounded_example : 1 ≤ (new_run_limiter (pos 1)).max_runs
unfolding new_run_limiter
Reach-running_bounded_example =
    (Reach-running_bounded (pos 1) (
      next (next (next here (enter (start (pos 1)) refl)) (enter _ refl))
        (take _ 1 refl (omega arith)))).1

abbrev closing : World
closing = record { limiter = close (new_run_limiter (pos 1)); waiting = 1; running = 0 }
