-- ===== src/Connector/Tests.antt =====
-- include/network/Connector.h at concrete answers.
use fluent_net.Prelude.{true, false, none, some, List, [], ◌∷◌, ◌≡◌, refl}
use fluent_net.Errors.{ok, throw, socket_create_exception}
use fluent_net.Socket.Calls.{opened, open_failed, create}
use fluent_net.Connector.{
  Attempt, Answers, renew, connect_again, retry, check, poll, run, eisconn, einprogress,
  enetunreach,
}
use fluent_net.Connector.Descriptors.{Accounts, run-Accounts}
use fluent_net.Connector.Progress.{waiting, enotconn}

-- The network is not there at first; the second socket is connected in the end.
abbrev lost : Attempt
lost = record { fd = 5; err = enetunreach; reconnect = false; next_instance = false; closed = [] }

abbrev busy : Answers
busy = record { socket = opened 6; connect = some einprogress; peer = some enotconn }

abbrev there : Answers
there = record { socket = opened 7; connect = some eisconn; peer = none }

abbrev two_sockets : List Answers
two_sockets = busy ∷ busy ∷ there ∷ []

second_is_connected : run two_sockets lost ≡ (ok true, waiting 6 0 false (5 ∷ []))
unfolding run poll retry renew create connect_again check
second_is_connected = refl

no_more_sockets :
    (run (busy ∷ record busy { socket = open_failed 24 } ∷ []) lost).0
    ≡ throw (socket_create_exception 24)
unfolding run poll retry renew create connect_again check
no_more_sockets = refl

run-Accounts_example : Accounts 5 lost two_sockets (run two_sockets lost)
run-Accounts_example = run-Accounts 5 two_sockets lost
