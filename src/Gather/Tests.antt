-- ===== src/Gather/Tests.antt =====
-- include/future/FuturesInternal.h at three futures, of which two have a value.
use fluent_net.Prelude.{ℕ, Bool, true, false, none, List, [], ◌∷◌, ◌++◌, ◌≡◌, refl, length, leb}
use mathlib.Core.List.{Perm}
use fluent_net.Futures.{State, ControlBlock}
use fluent_net.Gather.{Gathering, when_n, gather, scan, answer, sort_results}
use fluent_net.Gather.All.{when_all_poll, for_each, over_with, values_of, when_all_poll_exact}
use fluent_net.Gather.Scan.{gather_keeps, Adds, result_indices, indices_of}
use fluent_net.Gather.Found.{accepted_from, take_last}
use fluent_net.Gather.Delivery.{when_n_delivers}

abbrev block : State → ℕ → ControlBlock ℕ ℕ
block s v = record { state = s; value = v; callback = none }

abbrev three : List (ControlBlock ℕ ℕ)
three = block State.ready 5 ∷ block State.new 0 ∷ block State.done 9 ∷ []

abbrev all : ℕ → Bool
all v = true

abbrev two_asked : Gathering ℕ
two_asked = when_n 2 (0 ∷ 1 ∷ 2 ∷ [])

two_found : (gather three all two_asked).1.results ≡ (2, 9) ∷ (0, 5) ∷ []
unfolding gather scan answer
two_found = refl

gather_keeps_example :
    Adds three all two_asked.queries [] (gather three all two_asked).1.results
    × ((gather three all two_asked).0 ≡ false
        → Perm
            (result_indices (gather three all two_asked).1.results
              ++ indices_of (gather three all two_asked).1.queries)
            (2 ∷ 1 ∷ 0 ∷ []))
gather_keeps_example = gather_keeps three all two_asked

when_n_delivers_example :
    (let p = gather three all two_asked in
      (p.0 ≡ leb 2 (length (accepted_from three all 0 (0 ∷ 1 ∷ 2 ∷ []))))
      × (sort_results p.1.results ≡ take_last 2 (accepted_from three all 0 (0 ∷ 1 ∷ 2 ∷ []))))
when_n_delivers_example = when_n_delivers three all 2 (0 ∷ 1 ∷ 2 ∷ [])

three_accepted : accepted_from three all 0 (0 ∷ 1 ∷ 2 ∷ []) ≡ (0, 5) ∷ (2, 9) ∷ []
three_accepted = refl

when_all_poll_exact_example :
    when_all_poll three (0 ∷ 2 ∷ []) [] ≡ over_with [] (values_of three (0 ∷ 2 ∷ []))
when_all_poll_exact_example = when_all_poll_exact three (0 ∷ 2 ∷ []) []

-- The second future has no value, so the first is kept for a later poll.
not_all : when_all_poll three (0 ∷ 1 ∷ []) [] ≡ (false, [])
unfolding when_all_poll for_each
not_all = refl
