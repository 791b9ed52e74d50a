-- ===== src/Socket/Tests.antt =====
-- include/network/Socket.h at a concrete program.
use fluent_net.Prelude.{◌+◌, none, some, [], ◌∷◌, ◌≡◌, refl, arith}
use fluent_net.Socket.{Sockets, construct, move_assign}
use fluent_net.Socket.Owners.{
  held, count, perform, open_socket, assign_from, Reachable, none_yet, performed,
  descriptors_balance,
}

-- Two sockets; the first takes the descriptor of the second, and ends.
abbrev empty : Sockets
empty = record { variables = []; opened = []; closed = []; released = [] }

abbrev two : Sockets
two = record { variables = some 7 ∷ some 8 ∷ []; opened = 8 ∷ 7 ∷ []; closed = []; released = [] }

two-Reachable : Reachable two
unfolding perform construct
two-Reachable =
    performed (open_socket 8) (perform (open_socket 7) empty) tt
      (performed (open_socket 7) empty tt none_yet)

assigned :
    perform (assign_from 0 1) two ≡ record two { variables = some 8 ∷ none ∷ []; closed = 7 ∷ [] }
unfolding perform move_assign
assigned = refl

descriptors_balance_example :
    held 7 (perform (assign_from 0 1) two).variables
      + count 7 (perform (assign_from 0 1) two).closed
      + count 7 (perform (assign_from 0 1) two).released
    ≡ count 7 (perform (assign_from 0 1) two).opened
descriptors_balance_example =
    descriptors_balance 7 (perform (assign_from 0 1) two)
      (performed (assign_from 0 1) two (omega arith, omega arith) two-Reachable)
