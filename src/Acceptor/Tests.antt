-- ===== src/Acceptor/Tests.antt =====
-- include/network/Acceptor.h at concrete connections.
use fluent_net.Prelude.{none, some, List, [], ◌∷◌, ◌≡◌, refl}
use fluent_net.Address.{from_numbers}
use fluent_net.Acceptor.{Accepted, accepted, accept_failed, accept}
use fluent_net.Acceptor.Samples.{idle_acceptor}
use fluent_net.Acceptor.Handover.{given, take_all, takes_all}

abbrev three_answers : List Accepted
three_answers = accepted 7 (from_numbers 1 80) ∷ accept_failed ∷ accepted 8 (from_numbers 2 81) ∷ []

-- A result that nobody asked for is closed by the next one.
closes_unasked :
    (accept
      (accepted 8 (from_numbers 2 81))
      (record idle_acceptor { last_socket = some 7 })).1.closed
    ≡ 7 ∷ []
unfolding accept
closes_unasked = refl

takes_all_example :
    let (cs, b) = take_all three_answers idle_acceptor in
    (cs ≡ given three_answers) × (b.closed ≡ []) × (b.last_socket ≡ none)
takes_all_example = takes_all three_answers idle_acceptor refl
