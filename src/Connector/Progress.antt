-- ===== src/Connector/Progress.antt =====
-- include/network/Connector.h: an attempt is over soon where the connection is there, and never while
-- the peer refuses.
use fluent_net.Prelude.{ℕ, zero, suc, Bool, true, false, some, List, ◌≡◌, refl, replicate}
use fluent_net.Errors.{ok}
use fluent_net.Socket.Calls.{Opened}
use fluent_net.Connector.{Attempt, Answers, connect_again, retry, check, poll, run, econnrefused}

-- An attempt that tests or tries again with the descriptor that it has.
abbrev pub waiting : ℕ → ℕ → Bool → List ℕ → Attempt
waiting fd err again closed = record {
  fd = fd;
  err = err;
  reconnect = again;
  next_instance = false;
  closed = closed;
}

abbrev pub enotconn : ℕ
enotconn = 107

-- The answers where the peer refuses: the next `connect` tells so, and the socket has no peer.
abbrev pub refusal : Opened → Answers
refusal socket = record { socket = socket; connect = some econnrefused; peer = some enotconn }

goes_on :
    (n fd err : ℕ) (closed : List ℕ) (socket : Opened)
    → ((run (replicate n (refusal socket)) (waiting fd err true closed)).0 ≡ ok false)
      × ((run (replicate n (refusal socket)) (waiting fd econnrefused false closed)).0 ≡ ok false)
unfolding run poll retry connect_again check
goes_on zero fd err closed socket = (refl, refl)
goes_on (suc n) fd err closed socket =
    ((goes_on n fd err closed socket).1, (goes_on n fd enotconn closed socket).0)

-- While the peer refuses, an attempt that has been refused is never over, however often it is polled,
-- so its future is never cancelled.
pub refused_goes_on :
    (n fd : ℕ) (closed : List ℕ) (socket : Opened)
    → (run (replicate n (refusal socket)) (waiting fd econnrefused false closed)).0 ≡ ok false
refused_goes_on n fd closed socket = (goes_on n fd econnrefused closed socket).1
