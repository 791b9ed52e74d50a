-- ===== src/Acceptor/Samples.antt =====
-- A concrete acceptor for the tests.
use fluent_net.Prelude.{false, none, []}
use fluent_net.Address.{from_numbers}
use fluent_net.Socket.Calls.{Descriptor}
use fluent_net.Acceptor.{Acceptor}

abbrev pub closed_descriptor : Descriptor
closed_descriptor = record {
  no_delay = false;
  reuse_addr = false;
  reuse_port = false;
  keep_alive = false;
  flags = 2;
  bound = none;
  listening = false;
}

abbrev pub idle_acceptor : Acceptor
idle_acceptor = record {
  descriptor = closed_descriptor;
  last_address = from_numbers 0 0;
  last_socket = none;
  closed = [];
}
