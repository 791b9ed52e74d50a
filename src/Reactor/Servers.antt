-- ===== src/Reactor/Servers.antt =====
-- include/app/Server.h and include/app/Client.h: one batch of a server and of a client, and their runs.
use fluent_net.Prelude.{
  ℕ, Bool, true, false, Option, none, some, List, [], ◌∷◌, if◌then◌else◌, ◌==◌,
}
use fluent_net.Errors.{Result, ok, throw}
use fluent_net.Handler.{Handler, Answers}
use fluent_net.Multiplexer.{Multiplexer, Waited, token}
use fluent_net.Multiplexer
use fluent_net.Pool
use fluent_net.Acceptor.{Acceptor, Accepted, take_connection}
use fluent_net.Address.{InetAddress}
use fluent_net.Reactor.{Report, Reactor, Slots, handle_events, add_connection, loop, poll}

pub record Server : Type 0 where
  pub reactor : Reactor
  pub acceptor : Acceptor

-- The members of a new server or client, with its own multiplexer or one from outside. Its acceptor or
-- connector has no part in them.
unfoldable pub reactor_on : Bool → Multiplexer Report → Reactor
reactor_on is_outer m =
    let (t, m') = token m in
    record {
      multiplexer = m';
      is_outer = is_outer;
      token = t;
      connections = Pool.new;
      next_bundle = 0;
    }

abbrev pub new_reactor : Option (Multiplexer Report) → Reactor
new_reactor none = reactor_on false Multiplexer.new
new_reactor (some m) = reactor_on true m

-- `BaseServer(address, ...)`, with the acceptor that it makes; the callbacks are the handler.
abbrev pub new_server : Option (Multiplexer Report) → Acceptor → Server
new_server outer acceptor = record { reactor = new_reactor outer; acceptor = acceptor }

-- What the kernel answers in one batch: to `epoll_wait`, to `accept4`, and while the new connection is
-- registered; and whether a callback calls `stop()`.
pub record Inputs : Type 0 where
  pub waited : Waited Report
  pub accepted : Accepted
  pub registered : Answers
  pub stops : Bool

-- What a batch of a reactor comes to: none where a report has no connection any more.
abbrev pub Batch : Type 0 → Type 0
Batch S = Option (Result (Unit {0}) × S)

-- A batch that comes to something, with what holds then.
abbrev pub Leaves : {S : Type 0} → (S → Type 0) → Batch S → Type 0
Leaves Q none = ⊥
Leaves Q (some (result, s)) = Q s

-- What follows a batch: the next ones, unless it threw or the loop is stopped.
abbrev pub run_on : {S : Type 0} → Bool → (S → Batch S) → Batch S → Batch S
run_on stops later none = none
run_on stops later (some (throw e, s)) = some (throw e, s)
run_on stops later (some (ok u, s)) = if stops then some (ok u, s) else later s

-- `handleEvents(token)` and `_looper.loop()`
unfoldable pub handle_and_loop : Handler → Reactor → Option Reactor
handle_and_loop h r = elim (handle_events h r) [ none ↦ none | some r' ↦ some (loop r') ]

module _ (h : Handler) where
  -- What the acceptor has got is put into the pool and registered.
  abbrev pub take_in : Inputs → Reactor → Option (InetAddress × Option ℕ) → Reactor
  take_in inputs r none = r
  take_in inputs r (some c) = (add_connection h inputs.registered r).1

  -- `accept()`; the address and the socket of the connection are not in its model.
  unfoldable pub accept : Inputs → Server → Server
  accept inputs s =
      let (result, acceptor) = take_connection inputs.accepted s.acceptor in
      record { reactor = take_in inputs s.reactor result; acceptor = acceptor }

  abbrev pub serve : Server → Option Reactor → Batch Server
  serve s none = none
  serve s (some r) = some (ok tt, record s { reactor = r })

  abbrev pub after_poll : Inputs → Server → Result (Unit {0}) × Reactor → Batch Server
  after_poll inputs s (throw e, r) = some (throw e, record s { reactor = r })
  after_poll inputs s (ok u, r) =
      let t = accept inputs (record s { reactor = r }) in serve t (handle_and_loop h t.reactor)

  -- `BaseServer::batch()`
  unfoldable pub batch : Inputs → Server → Batch Server
  batch inputs s = after_poll inputs s (poll inputs.waited s.reactor)

  -- `run()`, as far as the inputs go
  unfoldable pub run : List Inputs → Server → Batch Server
  run [] s = some (ok tt, s)
  run (inputs ∷ later) s = run_on inputs.stops (run later) (batch inputs s)

-- `ensureLifecycle()` of a connection that has none
abbrev pub ensure_lifecycle : Option ℕ → Option ℕ
ensure_lifecycle none = some 1
ensure_lifecycle (some count) = some count

-- `ensureLifecycle()` of the connection at an address.
unfoldable pub guard_bundle : ℕ → Slots → Slots
guard_bundle bundle [] = []
guard_bundle bundle (none ∷ slots) = none ∷ guard_bundle bundle slots
guard_bundle bundle (some c ∷ slots) =
    let rest = guard_bundle bundle slots in
    if c.bundle == bundle
    then some (record c { use_count = ensure_lifecycle c.use_count }) ∷ slots
    else some c ∷ rest

-- What happens to a client in one batch: the answer to `epoll_wait`, the attempts to connect whose
-- futures have come through, and whether a callback calls `stop()`.
pub record ClientInputs : Type 0 where
  pub waited : Waited Report
  pub connected : List Answers
  pub stops : Bool

module _ (h : Handler) where
  -- The functor that `BaseClient::connect` leaves to the future.
  unfoldable pub connect_then : Answers → Reactor → Reactor
  connect_then answers r =
      let (bundle, r') = add_connection h answers r in
      let p = r'.connections in
      record r' { connections = record p { container = guard_bundle bundle p.container } }

  unfoldable pub connect_all : List Answers → Reactor → Reactor
  connect_all [] r = r
  connect_all (answers ∷ later) r = connect_all later (connect_then answers r)

  abbrev pub finish_client : ClientInputs → Option Reactor → Batch Reactor
  finish_client inputs none = none
  finish_client inputs (some r) = some (ok tt, connect_all inputs.connected r)

  abbrev pub client_after_poll : ClientInputs → Result (Unit {0}) × Reactor → Batch Reactor
  client_after_poll inputs (throw e, r) = some (throw e, r)
  client_after_poll inputs (ok u, r) = finish_client inputs (handle_and_loop h r)

  -- `BaseClient::batch()`
  unfoldable pub client_batch : ClientInputs → Reactor → Batch Reactor
  client_batch inputs r = client_after_poll inputs (poll inputs.waited r)

  -- `run()`, as far as the inputs go
  unfoldable pub client_run : List ClientInputs → Reactor → Batch Reactor
  client_run [] r = some (ok tt, r)
  client_run (inputs ∷ later) r = run_on inputs.stops (client_run later) (client_batch inputs r)
