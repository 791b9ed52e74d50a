-- ===== src/Reactor/Tests.antt =====
-- include/app/Server.h at concrete servers.
use fluent_net.Prelude.{List, true, false, none, some, [], ◌∷◌, refl, arith, inl}
use fluent_net.Buffer.{got, sent}
use fluent_net.Context.Samples.{idle, accept_all}
use fluent_net.Handler.{Handler, Answers, handle_new_context, caught, update_if_needed}
use fluent_net.Events.{update_event_state, update_in, enable_read, enable}
use fluent_net.Context.{update, refresh}
use fluent_net.WeakReference.{is_reusable_at}
use fluent_net.Multiplexer.{waited, visit, token, dispatch_active_context}
use fluent_net.Multiplexer
use fluent_net.WeakReference.Bounds.{IsBounded}
use fluent_net.Address.{from_numbers}
use fluent_net.Acceptor.{accepted, accept_failed, accept_result, take_connection}
use fluent_net.Acceptor
use fluent_net.Acceptor.Samples.{idle_acceptor}
use fluent_net.Pool.{Connection, Pool, slot_is_reusable, emplace, collect, place}
use fluent_net.Reactor.{
  Reactor, poll, add_connection, handle_events, handle_reports, at_bundle, loop_slots, poll_posted,
}
use fluent_net.Reactor.Safety.{IsSound}
use fluent_net.Reactor.Servers.{
  ClientInputs, client_batch, connect_all, connect_then, guard_bundle, client_run, new_reactor,
  Server, Inputs, batch, run, new_server, reactor_on, accept, handle_and_loop,
}
use fluent_net.Reactor.Clients.{IsClientServed}
use fluent_net.Reactor.ClientRuns.{ClientReports, new_client_runs}
use fluent_net.Reactor.Runs.{RunReports, new_server_runs}
use fluent_net.Reactor.Batches.{KernelReports, IsServed}

abbrev silent : Handler
silent = record { connect_callback = none; message_callback = none; close_callback = none }

abbrev answers : Answers
answers = record { readv = got []; write = sent 0; ctl = accept_all }

abbrev client : Connection
client = record { bundle = 3; token = 0; world = idle; use_count = none }

abbrev one_client : Pool
one_client = record { container = some client ∷ []; reusable_index = 1; left = 0; bound = 0 }

abbrev reactor : Reactor
reactor = record {
  multiplexer = record {
    event_size = 16;
    event_capacity = 16;
    event_vectors = [] ∷ [];
    next_token = 1;
  };
  is_outer = false;
  token = 0;
  connections = one_client;
  next_bundle = 4;
}

abbrev server : Server
server = record { reactor = reactor; acceptor = idle_acceptor }

-- The client has closed its side; another one comes in the same batch.
abbrev inputs : Inputs
inputs = record {
  waited =
      waited (
        (record { token = 0; report = record { bundle = 3; revent = 1; answers = answers } }) ∷ []);
  accepted = accepted 9 (from_numbers 1 80);
  registered = answers;
  stops = false;
}

one_client-IsBounded : IsBounded one_client
one_client-IsBounded = record {
  ordered = omega arith;
  below = omega arith;
  inside = omega arith;
  started = inl refl;
}

reactor-IsSound : IsSound reactor
unfolding visit
reactor-IsSound = record { bounded = one_client-IsBounded; handled_all = refl; own = refl }

reports_of_one : KernelReports silent reactor inputs.waited
unfolding slot_is_reusable
reports_of_one = ((omega arith, tt), (refl, tt))

-- A client connects; then it sends and closes, and the server is stopped.
abbrev connecting_inputs : Inputs
connecting_inputs = record {
  waited = waited [];
  accepted = accepted 9 (from_numbers 1 80);
  registered = answers;
  stops = false;
}

abbrev closing_inputs : Inputs
closing_inputs = record {
  waited =
      waited (
        (record { token = 0; report = record { bundle = 0; revent = 1; answers = answers } }) ∷ []);
  accepted = accept_failed;
  registered = answers;
  stops = true;
}

two_batches :
    RunReports silent (connecting_inputs ∷ closing_inputs ∷ []) (new_server none idle_acceptor)
unfolding batch poll Multiplexer.poll reactor_on token visit dispatch_active_context accept
    Acceptor.accept accept_result take_connection add_connection emplace place collect
    handle_new_context handle_and_loop handle_events handle_reports at_bundle loop_slots poll_posted
    slot_is_reusable Multiplexer.reserve_if_full caught is_reusable_at update_if_needed update
    update_event_state update_in enable_read enable refresh
two_batches = ((tt, tt), (((omega arith, tt), (refl, tt)), tt))

new_server_runs_example :
    IsServed silent
      (run silent (connecting_inputs ∷ closing_inputs ∷ []) (new_server none idle_acceptor))
new_server_runs_example =
    new_server_runs silent (connecting_inputs ∷ closing_inputs ∷ []) idle_acceptor two_batches

-- A connection of a client comes through, and then another one; then the first is closed from the
-- other side, and the client is stopped.
abbrev client_inputs : List ClientInputs
client_inputs =
    (record { waited = waited []; connected = answers ∷ []; stops = false })
    ∷ (record { waited = waited []; connected = answers ∷ []; stops = false })
    ∷ (record { waited = closing_inputs.waited; connected = []; stops = true })
    ∷ []

client_batches : ClientReports silent client_inputs [] (new_reactor none)
unfolding client_batch connect_all connect_then guard_bundle poll Multiplexer.poll reactor_on token
    visit dispatch_active_context add_connection emplace place collect handle_new_context
    handle_and_loop handle_events handle_reports at_bundle loop_slots poll_posted slot_is_reusable
    Multiplexer.reserve_if_full caught is_reusable_at update_if_needed update update_event_state
    update_in enable_read enable refresh
client_batches = ((tt, tt), ((tt, tt), (((omega arith, tt), (inl (omega arith, refl), tt)), tt)))

new_client_runs_example : IsClientServed silent (client_run silent client_inputs (new_reactor none))
new_client_runs_example = new_client_runs silent client_inputs client_batches
