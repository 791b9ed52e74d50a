-- ===== src/Errors.antt =====
-- include/throws: the exceptions of the library, and the result of code that may throw one.
pub mod Messages
use fluent_net.Prelude.{ℕ}

-- `FluentException` and its subclasses, with the `errno` that they keep.
pub data Exception : Type 0 where
  fluent_exception : Exception
  runtime_error : Exception
  socket_exception : ℕ → Exception
  socket_create_exception : ℕ → Exception
  socket_bind_exception : ℕ → Exception
  socket_listen_exception : ℕ → Exception
  socket_accept_exception : ℕ → Exception
  read_exception : ℕ → Exception
  write_exception : ℕ → Exception
  epoll_create_exception : ℕ → Exception
  epoll_wait_exception : ℕ → Exception
  epoll_control_exception : ℕ → Exception

pub data Result {ℓ} (A : Type ℓ) : Type ℓ where
  ok : A → Result A
  throw : Exception → Result A

infixl 5 ◌>>=◌
abbrev pub ◌>>=◌ {ℓ κ} : {A : Type ℓ} {B : Type κ} → Result A → (A → Result B) → Result B
ok a >>= f = f a
throw e >>= f = throw e

-- The values of <errno.h> on Linux that the code tests for.
abbrev pub eintr : ℕ
eintr = 4

abbrev pub eagain : ℕ
eagain = 11
