-- ===== src/Connector.antt =====
-- include/network/Connector.h: the attempt to connect that `connect` starts and that the looper polls
-- until it is over. `attempt` holds what the shared tuple holds; the address never changes.
pub mod Attempts
pub mod Progress
pub mod Descriptors
mod Tests
use fluent_net.Prelude.{
  ℕ, Bool, true, false, not, ◌||◌, Option, none, some, List, [], ◌∷◌, ◌++◌, if◌then◌else◌, ◌==◌,
}
use fluent_net.Errors.{Result, ok, throw, eintr}
use fluent_net.Socket.Calls.{Opened, create, error_of}

abbrev pub enetunreach : ℕ
enetunreach = 101

abbrev pub eisconn : ℕ
eisconn = 106

abbrev pub etimedout : ℕ
etimedout = 110

abbrev pub econnrefused : ℕ
econnrefused = 111

abbrev pub ealready : ℕ
ealready = 114

abbrev pub einprogress : ℕ
einprogress = 115

-- The members of the tuple, and the descriptors that were closed on the way.
pub record Attempt : Type 0 where
  pub fd : ℕ
  pub err : ℕ
  pub reconnect : Bool
  pub next_instance : Bool
  pub closed : List ℕ

-- What the kernel answers in one poll: to `socket`, to `connect` and to `getpeername`.
pub record Answers : Type 0 where
  pub socket : Opened
  pub connect : Option ℕ
  pub peer : Option ℕ

-- `testFailed(socket)`
abbrev pub test_failed : Answers → ℕ
test_failed answers = error_of answers.peer

-- The start, with the descriptor of `Socket()`.
unfoldable pub start : ℕ → Option ℕ → Attempt
start fd answer = record {
  fd = fd;
  err = error_of answer;
  reconnect = false;
  next_instance = false;
  closed = [];
}

-- `Socket().swap(socket)`: the temporary closes the descriptor that it got.
unfoldable pub renew : Answers → Attempt → Result (Unit {0}) × Attempt
renew answers a = elim (create answers.socket) [
  | ok fd ↦ (ok tt, record a { fd = fd; next_instance = false; closed = a.closed ++ a.fd ∷ [] })
  | throw e ↦ (throw e, a)
]

-- The branch `if(reconnect)`, from `connect` on.
unfoldable pub connect_again : Answers → Attempt → Result Bool × Attempt
connect_again answers a =
    let err = error_of answers.connect in (ok (err == 0), record a { err = err; reconnect = false })

abbrev pub and_connect : Answers → Result (Unit {0}) × Attempt → Result Bool × Attempt
and_connect answers (ok u, a) = connect_again answers a
and_connect answers (throw e, a) = (throw e, a)

unfoldable pub retry : Answers → Attempt → Result Bool × Attempt
retry answers a =
    if a.next_instance then and_connect answers (renew answers a) else connect_again answers a

-- `EINTR`, `ENETUNREACH`, `ETIMEDOUT`
abbrev pub wants_instance : ℕ → Bool
wants_instance err = (err == eintr) || ((err == enetunreach) || (err == etimedout))

-- `EINPROGRESS`, `EISCONN`, `EALREADY`, `ECONNREFUSED`
abbrev pub wants_test : ℕ → Bool
wants_test err =
    (err == einprogress) || ((err == eisconn) || ((err == ealready) || (err == econnrefused)))

-- `switch(err)`
unfoldable pub check : Answers → Attempt → Result Bool × Attempt
check answers a =
    if wants_instance a.err
    then (ok false, record a { next_instance = true; reconnect = true })
    else if wants_test a.err
    then (let failed = test_failed answers in
        (ok (failed == 0), record a { err = failed; reconnect = a.reconnect || not (failed == 0) }))
    else (ok true, a)

-- The closure that is polled.
unfoldable pub poll : Answers → Attempt → Result Bool × Attempt
poll answers a = if a.reconnect then retry answers a else check answers a

-- `cancelIf` and `then`: the socket that is handed out, none if the future is cancelled.
unfoldable pub outcome : Attempt → Option ℕ
outcome a = if a.err == 0 then some a.fd else none

-- The looper polls the closure until it answers true or throws.
abbrev pub poll_on :
    (Attempt → Result Bool × Attempt) → Result Bool × Attempt → Result Bool × Attempt
poll_on later (ok over, a) = if over then (ok true, a) else later a
poll_on later (throw e, a) = (throw e, a)

unfoldable pub run : List Answers → Attempt → Result Bool × Attempt
run [] a = (ok false, a)
run (answers ∷ later) a = poll_on (run later) (poll answers a)
