-- ===== src/Reactor.antt =====
-- include/app/Server.h and include/app/Client.h, with `handleEvents` of include/handler/Handler.h: how
-- a program's reports, connections and callbacks come together in one thread.
-- A bundle is the address of a connection. An address is not used again, so a report that outlives its
-- connection is seen: it has no connection, and the result is none.
pub mod Tables
pub mod Safety
pub mod Batches
pub mod Servers
pub mod Runs
pub mod Clients
pub mod ClientRuns
mod Tests
use fluent_net.Prelude.{
  ℕ, zero, suc, ◌+◌, Bool, true, false, not, Option, none, some, List, [], ◌∷◌, ◌++◌, set,
  if◌then◌else◌, ◌==◌,
}
use fluent_net.Errors.{Result, ok, throw}
use fluent_net.Buffer
use fluent_net.Events.{initial}
use fluent_net.Context.{Context, World, M, NetworkState, connecting, fast_complete, shutdown_poll}
use fluent_net.Handler.{Handler, Answers, caught, handle_event, handle_new_context}
use fluent_net.Multiplexer.{Multiplexer, Event, Waited, visit}
use fluent_net.Multiplexer
use fluent_net.Pool.{Connection, Pool, emplace}

-- An event with what the kernel answers while it is handled.
pub record Report : Type 0 where
  pub bundle : ℕ
  pub revent : ℕ
  pub answers : Answers

-- The members that servers and clients share, and the address of the next connection.
pub record Reactor : Type 0 where
  pub multiplexer : Multiplexer Report
  pub is_outer : Bool
  pub token : ℕ
  pub connections : Pool
  pub next_bundle : ℕ

abbrev pub Slots : Type 0
Slots = List (Option Connection)

-- `Context(looper, address, socket)`
abbrev pub new_context : Context
new_context = record {
  state = connecting;
  policy = initial;
  input = Buffer.new 128;
  output = Buffer.new 128;
  provider = [];
  current_index = fast_complete + 1;
  completed_index = fast_complete + 1;
  exception = none;
}

abbrev pub new_world : World
new_world = record { context = new_context; stream = []; shut = false; operations = []; posted = 0 }

-- `std::make_unique<BundleValueType>(token, Context(...))`
abbrev pub new_connection : ℕ → ℕ → Connection
new_connection bundle token = record {
  bundle = bundle;
  token = token;
  world = new_world;
  use_count = none;
}

abbrev pub put_front : Option Connection → Option Slots → Option Slots
put_front slot none = none
put_front slot (some slots) = some (slot ∷ slots)

-- Code on the connection at an address.
unfoldable pub at_bundle : ℕ → (World → World) → Slots → Option Slots
at_bundle bundle f [] = none
at_bundle bundle f (none ∷ slots) = put_front none (at_bundle bundle f slots)
at_bundle bundle f (some c ∷ slots) =
    let rest = at_bundle bundle f slots in
    if c.bundle == bundle
    then some (some (record c { world = f c.world }) ∷ slots)
    else put_front (some c) rest

module _ (h : Handler) where
  -- The body of the loop of `handleEvents`, with its `try`.
  abbrev pub handled : Report → World → World
  handled r w = (caught (handle_event h r.revent r.answers) w).1

  unfoldable pub handle_reports : List (Event Report) → Slots → Option Slots
  handle_reports [] slots = some slots
  handle_reports (e ∷ es) slots = elim (at_bundle e.report.bundle (handled e.report) slots) [
    | none ↦ none
    | some slots' ↦ handle_reports es slots'
  ]

  abbrev pub put_slots : Reactor → Option Slots → Option Reactor
  put_slots r none = none
  put_slots r (some slots) =
      some (record r { connections = record (r.connections) { container = slots } })

  -- `handleEvents(token)`: the vector is swapped with the empty buffer of the handler.
  unfoldable pub handle_events : Reactor → Option Reactor
  handle_events r =
      let m = r.multiplexer in
      put_slots
        (record r { multiplexer = record m { event_vectors = set m.event_vectors r.token [] } })
        (handle_reports (visit r.token m) r.connections.container)

  -- `_connections.emplace(...)` and `_handler.handleNewContext(bundle)`; the new bundle is the result.
  unfoldable pub add_connection : Answers → Reactor → ℕ × Reactor
  add_connection answers r =
      let c = new_connection r.next_bundle r.token in
      let (index, p) = emplace r.connections c in
      let c' = record c { world = (handle_new_context h answers c.world).1 } in
      (
        r.next_bundle,
        record r {
          connections = record p { container = set p.container index (some c') };
          next_bundle = suc r.next_bundle;
        },
      )

-- Whether a closure that was polled is at its end.
abbrev pub is_over : Result Bool → Bool
is_over (ok over) = over
is_over (throw e) = true

-- `_looper.loop()` for what the contexts themselves have posted: each closure is polled once, and the
-- ones that are not over stay.
unfoldable pub poll_posted : ℕ → World → World
poll_posted zero w = record w { posted = 0 }
poll_posted (suc n) w =
    let (r, v) = shutdown_poll w in
    let left = poll_posted n v in
    if is_over r then left else record left { posted = suc left.posted }

unfoldable pub loop_slots : Slots → Slots
loop_slots [] = []
loop_slots (none ∷ slots) = none ∷ loop_slots slots
loop_slots (some c ∷ slots) =
    some (record c { world = poll_posted c.world.posted c.world }) ∷ loop_slots slots

abbrev pub loop : Reactor → Reactor
loop r = record r {
  connections = record (r.connections) { container = loop_slots r.connections.container };
}

-- `if(!_isOuterMultiplexer) _multiplexer->poll(zero)`
unfoldable pub poll : Waited Report → Reactor → Result (Unit {0}) × Reactor
poll answer r =
    if r.is_outer
    then (ok tt, r)
    else (let (result, m) = Multiplexer.poll answer r.multiplexer in
        (result, record r { multiplexer = m }))
