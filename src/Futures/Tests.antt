-- ===== src/Futures/Tests.antt =====
-- include/future at concrete calls: values are numbers, and the application keeps a log.
use fluent_net.Prelude.{
  arith, ℕ, ◌+◌, ◌≡◌, refl, Bool, false, Option, none, some, List, [], ◌∷◌, ◌++◌,
}
use fluent_net.Futures.{
  and_then, then_routine, poll_count_routine, ControlBlock, Looper, State, posted, loop_once, loop,
  repeat, make_future, new_promise, set_value, set_block, set_ready, put_block, post_request,
  future_routine, register, resume, call, set_state,
}
use fluent_net.Futures.Blocks.{IsSound, UnlessThrown}
use fluent_net.Futures.Once.{
  Call, make_future_call, future_routine_call, loop_once_call, perform_all, perform, start,
  requests_once,
}
use fluent_net.Futures.Waits.{Counts, Readings, wait_for, wait_run, wait_run-Counts}
use fluent_net.Futures.Delivery.{then_delivers}
use fluent_net.Futures.Turns.{loop_repeats}

abbrev Log : Type 0
Log = List ℕ

abbrev double : ℕ → Log → ℕ × Log
double v log = (v + v, log ++ v ∷ [])

abbrev never : ℕ → Log → Bool × Log
never v log = (false, log ++ v ∷ [])

-- A value, a continuation of it, and one of that one; then three rounds.
abbrev chain : List (Call ℕ Log)
chain =
    make_future_call 0 7
    ∷ future_routine_call 0 0 (then_routine double)
    ∷ future_routine_call 0 1 (then_routine double)
    ∷ loop_once_call
    ∷ loop_once_call
    ∷ loop_once_call
    ∷ []

app_of : Option (Looper ℕ Log) → Log
app_of none = []
app_of (some w) = w.app

values_of : List (ControlBlock ℕ Log) → List ℕ
values_of [] = []
values_of (b ∷ bs) = b.value ∷ values_of bs

results_of : Option (Looper ℕ Log) → List ℕ
results_of none = []
results_of (some w) = values_of w.blocks

requests_once_example : UnlessThrown (IsSound []) (perform_all chain (start []))
requests_once_example = requests_once chain []

-- Two polls of a count that never answer true.
abbrev waiting : Looper ℕ Log
waiting = record {
  blocks =
      record { state = posted; value = 3; callback = some (poll_count_routine 1 never 2) }
      ∷ record { state = posted; value = 4; callback = some (poll_count_routine 2 never 2) }
      ∷ record { state = State.new; value = 0; callback = none }
      ∷ [];
  queue = 0 ∷ 1 ∷ [];
  app = [];
}

loop_repeats_example : loop waiting ≡ repeat 2 loop_once waiting
loop_repeats_example = loop_repeats waiting

chain_results : results_of (perform_all chain (start [])) ≡ 7 ∷ 14 ∷ 28 ∷ []
unfolding results_of values_of perform_all perform make_future new_promise set_value set_block
    set_ready put_block post_request future_routine register loop_once resume call set_state
chain_results = refl

chain_log : app_of (perform_all chain (start [])) ≡ 7 ∷ 14 ∷ []
unfolding app_of perform_all perform make_future new_promise set_value set_block set_ready put_block
    post_request future_routine register loop_once resume call set_state
chain_log = refl

then_delivers_example :
    and_then
      (make_future 0 7 (start []))
      (λ w. loop_once (future_routine 0 0 (λ t. then_routine double t) w).1)
    ≡ some (record {
      blocks =
          record { state = State.done; value = 7; callback = some (then_routine double 1) }
          ∷ record { state = State.ready; value = 14; callback = none }
          ∷ [];
      queue = [];
      app = 7 ∷ [];
    })
then_delivers_example = then_delivers [] 0 7 double []

-- Two calls that are 10 ticks apart, and a poll between them.
abbrev clocks : List Readings
clocks =
    (record { current = 100; again = 100 })
    ∷ (record { current = 110; again = 111 })
    ∷ (record { current = 115; again = 115 })
    ∷ (record { current = 121; again = 121 })
    ∷ []

wait_run-Counts_example : Counts 2 (wait_run 10 clocks (wait_for 2))
wait_run-Counts_example = wait_run-Counts 10 clocks (wait_for 2) (omega arith)
