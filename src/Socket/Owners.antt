-- ===== src/Socket/Owners.antt =====
-- include/network/Socket.h: a descriptor has one owner, or it was closed or given away once.
use fluent_net.Prelude.{
  ℕ, zero, suc, ◌+◌, ◌<◌, Option, none, some, List, [], ◌∷◌, ◌++◌, ◌≡◌, set, length, if◌then◌else◌,
  ◌==◌, arith, length-set,
}
use fluent_net.Socket.{
  Sockets, log_fd, fd_of, construct, move_construct, move_assign, release, destroy,
}

-- How often a descriptor is in a list, is held by a variable, by the variables.
abbrev pub count : ℕ → List ℕ → ℕ
count d [] = 0
count d (x ∷ xs) = let rest = count d xs in if x == d then suc rest else rest

abbrev pub held_by : ℕ → Option ℕ → ℕ
held_by d none = 0
held_by d (some fd) = if fd == d then 1 else 0

abbrev pub held : ℕ → List (Option ℕ) → ℕ
held d [] = 0
held d (v ∷ vs) = held_by d v + held d vs

held-append :
    (d : ℕ) (xs : List (Option ℕ)) (v : Option ℕ) → held d (xs ++ v ∷ []) ≡ held d xs + held_by d v
held-append d [] v = omega arith
held-append d (x ∷ xs) v = omega (arith, held-append d xs v)

held-set :
    (d : ℕ) (xs : List (Option ℕ)) (i : ℕ) (v : Option ℕ)
    → i < length xs
    → held d (set xs i v) + held_by d (fd_of xs i) ≡ held d xs + held_by d v
held-set d [] i v h = absurd (omega arith)
held-set d (x ∷ xs) zero v h = omega arith
held-set d (x ∷ xs) (suc i) v h = omega (arith, held-set d xs i v (omega arith))

count-log_fd :
    (d : ℕ) (v : Option ℕ) (log : List ℕ) → count d (log_fd v log) ≡ held_by d v + count d log
count-log_fd d none log = omega arith
count-log_fd d (some fd) log = ground arith

-- The operations on variables that are there.
pub data Operation : Type 0 where
  open_socket : ℕ → Operation
  construct_from : ℕ → Operation
  assign_from : ℕ → ℕ → Operation
  give_away : ℕ → Operation
  end_of_life : ℕ → Operation

unfoldable pub perform : Operation → Sockets → Sockets
perform (open_socket fd) s = construct fd s
perform (construct_from j) s = move_construct j s
perform (assign_from i j) s = move_assign i j s
perform (give_away i) s = (release i s).1
perform (end_of_life i) s = destroy i s

abbrev pub IsThere : Operation → Sockets → Type 0
IsThere (open_socket fd) s = Unit
IsThere (construct_from j) s = j < length s.variables
IsThere (assign_from i j) s = (i < length s.variables) × (j < length s.variables)
IsThere (give_away i) s = i < length s.variables
IsThere (end_of_life i) s = i < length s.variables

-- The stores of a program that uses its own variables only.
pub data Reachable : Sockets → Type 0 where
  none_yet : Reachable (record { variables = []; opened = []; closed = []; released = [] })
  performed : (o : Operation) (s : Sockets) → IsThere o s → Reachable s → Reachable (perform o s)

abbrev Balanced : ℕ → Sockets → Type 0
Balanced d s = held d s.variables + count d s.closed + count d s.released ≡ count d s.opened

perform-Balanced :
    (d : ℕ) (o : Operation) (s : Sockets) → IsThere o s → Balanced d s → Balanced d (perform o s)
unfolding perform construct move_construct move_assign release destroy
perform-Balanced d (open_socket fd) s h b = ground (arith, held-append d s.variables (some fd))
perform-Balanced d (construct_from j) s h b = omega (
  arith,
  b,
  held-append d (set s.variables j none) (fd_of s.variables j),
  held-set d s.variables j none h,
)
perform-Balanced d (assign_from i j) s h b =
    let taken = set s.variables j none in
    let there : i < length taken = omega (arith, h.0, length-set s.variables j none) in
    omega (
      arith,
      b,
      held-set d s.variables j none h.1,
      held-set d taken i (fd_of s.variables j) there,
      count-log_fd d (fd_of taken i) s.closed,
    )
perform-Balanced d (give_away i) s h b =
    omega
      (arith, b, held-set d s.variables i none h, count-log_fd d (fd_of s.variables i) s.released)
perform-Balanced d (end_of_life i) s h b =
    omega (arith, b, held-set d s.variables i none h, count-log_fd d (fd_of s.variables i) s.closed)

-- In every store of a program: the times that a descriptor is held, was closed and was given away
-- add up to the times that it was opened. So one that was opened once is never closed twice, nor while
-- a socket has it.
pub descriptors_balance :
    (d : ℕ) (s : Sockets)
    → Reachable s
    → held d s.variables + count d s.closed + count d s.released ≡ count d s.opened
descriptors_balance d s none_yet = omega arith
descriptors_balance d s (performed o s' h r) =
    perform-Balanced d o s' h (descriptors_balance d s' r)
