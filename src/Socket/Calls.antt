-- ===== src/Socket/Calls.antt =====
-- include/network/Socket.h: the system calls on one descriptor, and the options that they set.
-- What the kernel answers is an argument; none is success, otherwise it is `errno`.
use Prim.Native.Nat.{bit_and, bit_or}
use fluent_net.Prelude.{ℕ, ◌-◌, ◌^◌, Bool, Option, none, some}
use fluent_net.Errors.{
  Exception, socket_exception, socket_create_exception, socket_bind_exception,
  socket_listen_exception, socket_accept_exception, Result, ok, throw,
}
use fluent_net.Address.{InetAddress}

-- What the kernel keeps for a descriptor.
pub record Descriptor : Type 0 where
  pub no_delay : Bool
  pub reuse_addr : Bool
  pub reuse_port : Bool
  pub keep_alive : Bool
  pub flags : ℕ
  pub bound : Option InetAddress
  pub listening : Bool

-- A call that fails throws and leaves the descriptor alone.
abbrev pub change :
    (ℕ → Exception) → Option ℕ → Descriptor → Descriptor → Result (Unit {0}) × Descriptor
change exception none d d' = (ok tt, d')
change exception (some errno) d d' = (throw (exception errno), d)

unfoldable pub bind : InetAddress → Option ℕ → Descriptor → Result (Unit {0}) × Descriptor
bind address answer d = change socket_bind_exception answer d (record d { bound = some address })

unfoldable pub listen : Option ℕ → Descriptor → Result (Unit {0}) × Descriptor
listen answer d = change socket_listen_exception answer d (record d { listening = Bool.true })

unfoldable pub set_no_delay : Bool → Option ℕ → Descriptor → Result (Unit {0}) × Descriptor
set_no_delay on answer d = change socket_exception answer d (record d { no_delay = on })

unfoldable pub set_reuse_addr : Bool → Option ℕ → Descriptor → Result (Unit {0}) × Descriptor
set_reuse_addr on answer d = change socket_exception answer d (record d { reuse_addr = on })

unfoldable pub set_reuse_port : Bool → Option ℕ → Descriptor → Result (Unit {0}) × Descriptor
set_reuse_port on answer d = change socket_exception answer d (record d { reuse_port = on })

unfoldable pub set_keep_alive : Bool → Option ℕ → Descriptor → Result (Unit {0}) × Descriptor
set_keep_alive on answer d = change socket_exception answer d (record d { keep_alive = on })

-- `SOCK_NONBLOCK`, which is `O_NONBLOCK` on Linux
abbrev pub sock_nonblock : ℕ
sock_nonblock = 2048

-- `setBlock()`; an `int` has 32 bits. The result of `fcntl` is not looked at.
unfoldable pub set_block : Descriptor → Descriptor
set_block d = record d { flags = bit_and d.flags (2 ^ 32 - 1 - sock_nonblock) }

unfoldable pub set_non_block : Descriptor → Descriptor
set_non_block d = record d { flags = bit_or d.flags sock_nonblock }

-- What `socket` and `accept4` answer.
pub data Opened : Type 0 where
  opened : ℕ → Opened
  open_failed : ℕ → Opened

-- `Socket()`
unfoldable pub create : Opened → Result ℕ
create (opened fd) = ok fd
create (open_failed errno) = throw (socket_create_exception errno)

-- `accept()` and `accept(address)`
unfoldable pub accept : Opened → Result ℕ
accept (opened fd) = ok fd
accept (open_failed errno) = throw (socket_accept_exception errno)

-- `errno` after `connect`, 0 where it succeeded: `ret ? errno : 0`
abbrev pub error_of : Option ℕ → ℕ
error_of none = 0
error_of (some errno) = errno
