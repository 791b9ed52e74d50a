-- ===== src/Multiplexer/Tests.antt =====
-- include/network/Multiplexer.h at concrete events: a report is a number.
use fluent_net.Prelude.{ℕ, List, [], ◌∷◌, ◌++◌, ◌≡◌, refl, replicate, arith}
use fluent_net.Errors.{ok}
use fluent_net.Multiplexer.{Event, Multiplexer, waited, wait_failed, visit, poll}
use fluent_net.Multiplexer.Dispatch.{events_of, poll_delivers}
use fluent_net.Multiplexer.Run.{Step, take_token, wait}

abbrev event : ℕ → ℕ → Event ℕ
event t report = record { token = t; report = report }

abbrev mixed : List (Event ℕ)
mixed = event 1 5 ∷ event 0 6 ∷ event 1 7 ∷ []

abbrev two_loops : Multiplexer ℕ
two_loops = record {
  event_size = 16;
  event_capacity = 16;
  event_vectors = [] ∷ [] ∷ [];
  next_token = 2;
}

mixed_second : events_of 1 mixed ≡ event 1 5 ∷ event 1 7 ∷ []
mixed_second = refl

poll_delivers_example :
    ((poll (waited mixed) two_loops).0 ≡ ok tt)
    × (visit 1 (poll (waited mixed) two_loops).1 ≡ visit 1 two_loops ++ events_of 1 mixed)
poll_delivers_example =
    poll_delivers mixed two_loops 1 (omega arith, (omega arith, (omega arith, tt)))

-- A token, a poll that fills `_events`, and one that a signal interrupts.
abbrev steps : List (Step ℕ)
steps = take_token ∷ wait (waited (replicate 16 (event 0 1))) ∷ wait (wait_failed 4) ∷ []
