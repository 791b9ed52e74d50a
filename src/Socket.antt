-- ===== src/Socket.antt =====
-- include/network/Socket.h: who owns a descriptor. The sockets of a program are variables in a store;
-- none is `INVALID_FD`. What is closed and what is given away is logged.
pub mod Owners
pub mod Calls
mod Tests
use fluent_net.Prelude.{ℕ, Option, none, some, List, [], ◌∷◌, ◌++◌, set, get_elem?}

pub record Sockets : Type 0 where
  pub variables : List (Option ℕ)
  pub opened : List ℕ
  pub closed : List ℕ
  pub released : List ℕ

abbrev pub log_fd : Option ℕ → List ℕ → List ℕ
log_fd none log = log
log_fd (some fd) log = fd ∷ log

-- `_socketFd` of a variable; there is none outside.
abbrev pub fd_of : List (Option ℕ) → ℕ → Option ℕ
fd_of xs i = elim (get_elem? xs i) [ none ↦ none | some fd ↦ fd ]

-- `Socket(fd)`, and `Socket()` and `accept()` with the descriptor that the kernel gave them.
unfoldable pub construct : ℕ → Sockets → Sockets
construct fd s = record s { variables = s.variables ++ some fd ∷ []; opened = fd ∷ s.opened }

-- `Socket(Socket &&rhs)`
unfoldable pub move_construct : ℕ → Sockets → Sockets
move_construct j s = record s { variables = set s.variables j none ++ fd_of s.variables j ∷ [] }

-- `operator=`: a temporary takes the descriptor of `rhs` and is swapped with this socket; its
-- destructor closes what this socket had then.
unfoldable pub move_assign : ℕ → ℕ → Sockets → Sockets
move_assign i j s =
    let taken = set s.variables j none in
    record s {
      variables = set taken i (fd_of s.variables j);
      closed = log_fd (fd_of taken i) s.closed;
    }

-- `detach()`, and `operator int() &&` with its answer
unfoldable pub release : ℕ → Sockets → Option ℕ × Sockets
release i s = (
  fd_of s.variables i,
  record s {
    variables = set s.variables i none;
    released = log_fd (fd_of s.variables i) s.released;
  },
)

-- `~Socket()`
unfoldable pub destroy : ℕ → Sockets → Sockets
destroy i s = record s {
  variables = set s.variables i none;
  closed = log_fd (fd_of s.variables i) s.closed;
}
