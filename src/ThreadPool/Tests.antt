-- ===== src/ThreadPool/Tests.antt =====
-- include/utils/ThreadPool.h at a concrete pool.
use fluent_net.Prelude.{some, [], ◌∷◌, ◌≡◌, refl, arith}
use fluent_net.ThreadPool.{
  ThreadPool, create, execute, notify_one, notified_one, turn, wake, Reach, created, executed,
  turned,
}
use fluent_net.ThreadPool.Fairness.{IsFair, Reach-IsFair}

-- Two threads; the first waits when a task comes, the second has not looked yet and takes it.
abbrev taken : ThreadPool
taken = turn 1 (notify_one (some 0) (execute 7 (turn 0 (create 2))))

taken_started : taken.started ≡ 7 ∷ []
unfolding turn execute wake notify_one
taken_started = refl

taken-Reach : Reach 2 (7 ∷ []) taken
unfolding turn execute
taken-Reach =
    turned 1 (notified_one (some 0) (executed 7 (turned 0 created) refl) (omega arith) refl)

Reach-IsFair_example : IsFair 2 (7 ∷ []) taken
Reach-IsFair_example = Reach-IsFair 2 (7 ∷ []) taken (omega arith) taken-Reach
