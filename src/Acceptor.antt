-- ===== src/Acceptor.antt =====
-- include/network/Acceptor.h: the listening socket, and the connection that `accept` keeps until it is
-- asked for. The buffered socket is none while it holds `INVALID_FD`.
pub mod Handover
pub mod Samples
mod Tests
use fluent_net.Prelude.{ℕ, Bool, true, false, Option, none, some, List, [], ◌∷◌, ◌++◌}
use fluent_net.Errors.{Result, ok, throw, Exception}
use fluent_net.Address.{InetAddress}
use fluent_net.Socket.{log_fd}
use fluent_net.Socket.Calls.{Descriptor, bind, listen, set_reuse_addr, set_reuse_port}

-- `_listenDescriptor`, `_lastBufferedAddress` and `_lastBufferedSocket`, and what was closed.
pub record Acceptor : Type 0 where
  pub descriptor : Descriptor
  pub last_address : InetAddress
  pub last_socket : Option ℕ
  pub closed : List ℕ

abbrev pub then_do :
    (Descriptor → Result (Unit {0}) × Descriptor)
    → Result (Unit {0}) × Descriptor
    → Result (Unit {0}) × Descriptor
then_do f (ok u, d) = f d
then_do f (throw e, d) = (throw e, d)

-- What the kernel answers while an acceptor is made.
pub record Answers : Type 0 where
  pub reuse_port : Option ℕ
  pub reuse_addr : Option ℕ
  pub bind : Option ℕ

-- The body of `Acceptor(looper, address)`, on the descriptor of a new socket.
unfoldable pub prepare : InetAddress → Answers → Descriptor → Result (Unit {0}) × Descriptor
prepare address answers d =
    then_do (bind address answers.bind)
      (then_do (set_reuse_addr true answers.reuse_addr) (set_reuse_port true answers.reuse_port d))

-- `start()`
unfoldable pub start : Option ℕ → Descriptor → Result (Unit {0}) × Descriptor
start answer d = listen answer d

-- What `accept4` answers: the new descriptor and the address that it wrote, or a failure.
pub data Accepted : Type 0 where
  accepted : ℕ → InetAddress → Accepted
  accept_failed : Accepted

-- `accept()`; the assignment closes a socket that is still buffered.
unfoldable pub accept : Accepted → Acceptor → Bool × Acceptor
accept (accepted fd address) a = (
  true,
  record a {
    last_address = address;
    last_socket = some fd;
    closed = log_fd a.last_socket a.closed;
  },
)
accept accept_failed a = (false, a)

-- `aceeptResult()`
unfoldable pub accept_result : Acceptor → (InetAddress × Option ℕ) × Acceptor
accept_result a = ((a.last_address, a.last_socket), record a { last_socket = none })

-- The part of `BaseServer::accept` that deals with the acceptor: what it hands to the pool.
unfoldable pub take_connection : Accepted → Acceptor → Option (InetAddress × Option ℕ) × Acceptor
take_connection answer a =
    let (there, b) = accept answer a in
    let (result, c) = accept_result b in elim there [ true ↦ (some result, c) | false ↦ (none, b) ]
