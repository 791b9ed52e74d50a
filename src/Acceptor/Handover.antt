-- ===== src/Acceptor/Handover.antt =====
-- include/network/Acceptor.h: what becomes of the accepted descriptors.
use fluent_net.Prelude.{ℕ, true, Option, none, some, List, [], ◌∷◌, ◌≡◌, refl, ap, ◌∙◌}
use fluent_net.Errors.{Result, ok, throw}
use fluent_net.Address.{InetAddress}
use fluent_net.Socket.{log_fd}
use fluent_net.Socket.Calls.{Descriptor, bind, set_reuse_addr, set_reuse_port}
use fluent_net.Acceptor.{
  prepare, Acceptor, Accepted, accepted, accept_failed, accept, accept_result, take_connection,
}

-- The connections that the kernel gave, in order.
abbrev pub given : List Accepted → List (InetAddress × Option ℕ)
given [] = []
given (accepted fd address ∷ later) = (address, some fd) ∷ given later
given (accept_failed ∷ later) = given later

abbrev pub handed_on :
    Option (InetAddress × Option ℕ) → List (InetAddress × Option ℕ) → List (InetAddress × Option ℕ)
handed_on none later = later
handed_on (some c) later = c ∷ later

-- One `accept` after the other, each followed by its result: what is handed out, and the acceptor.
abbrev pub take_all : List Accepted → Acceptor → List (InetAddress × Option ℕ) × Acceptor
take_all [] a = ([], a)
take_all (answer ∷ later) a =
    let (c, b) = take_connection answer a in
    let (cs, last) = take_all later b in (handed_on c cs, last)

-- An acceptor with nothing buffered hands out each connection that the kernel gives, with its own
-- address and once, in order; it closes none and is left with nothing buffered.
pub takes_all :
    (answers : List Accepted) (a : Acceptor)
    → a.last_socket ≡ none
    → let (cs, b) = take_all answers a in
      (cs ≡ given answers) × (b.closed ≡ a.closed) × (b.last_socket ≡ none)
unfolding take_connection accept accept_result
takes_all [] a h = (refl, refl, h)
takes_all (accepted fd address ∷ later) a h =
    let b : Acceptor = record a {
      last_address = address;
      last_socket = none;
      closed = log_fd a.last_socket a.closed;
    } in
    let (cs, closed, last) = takes_all later b refl in
    (ap (◌∷◌ (address, some fd)) cs, closed ∙ ap (λ s. log_fd s a.closed) h, last)
takes_all (accept_failed ∷ later) a h = takes_all later a h

-- A descriptor that an acceptor can listen on, or one that is as unbound as before.
abbrev pub IsPrepared : InetAddress → Descriptor → Result (Unit {0}) × Descriptor → Type 0
IsPrepared address before (ok u, d) =
    (d.bound ≡ some address) × (d.reuse_port ≡ true) × (d.reuse_addr ≡ true)
IsPrepared address before (throw e, d) = d.bound ≡ before.bound

-- An acceptor is made with both options and bound to its address, or its constructor throws and has
-- bound nothing.
pub prepare-IsPrepared :
    (address : InetAddress) (port addr bound : Option ℕ) (d : Descriptor)
    → IsPrepared address d
        (prepare address (record { reuse_port = port; reuse_addr = addr; bind = bound }) d)
unfolding prepare bind set_reuse_addr set_reuse_port
prepare-IsPrepared address (some e) addr bound d = refl
prepare-IsPrepared address none (some e) bound d = refl
prepare-IsPrepared address none none (some e) d = refl
prepare-IsPrepared address none none none d = (refl, refl, refl)
