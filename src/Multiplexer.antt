-- ===== src/Multiplexer.antt =====
-- include/network/Multiplexer.h: the tokens, and the vectors that the reports of epoll are put into.
-- A report is the token of the bundle that epoll hands back and the rest of the event.
pub mod Dispatch
pub mod Run
mod Tests
use fluent_net.Prelude.{
  ℕ, zero, suc, ◌+◌, ◌*◌, Bool, Option, none, some, List, [], ◌∷◌, ◌++◌, set, get_elem?, length,
  max, if◌then◌else◌, ◌==◌,
}
use fluent_net.Errors.{Exception, Result, ok, throw, eintr, epoll_wait_exception}

pub record Event (E : Type 0) : Type 0 where
  pub token : ℕ
  pub report : E

-- `_events` by its size and its capacity, `_evnetVectors` and `_token`.
pub record Multiplexer (E : Type 0) : Type 0 where
  pub event_size : ℕ
  pub event_capacity : ℕ
  pub event_vectors : List (List (Event E))
  pub next_token : ℕ

-- What `epoll_wait` answers: the events, at most as many as `_events` has room for by its size, or
-- `errno`.
pub data Waited (E : Type 0) : Type 0 where
  waited : List (Event E) → Waited E
  wait_failed : ℕ → Waited E

module _ {E : Type 0} where
  -- `Multiplexer()`, where `epoll_create1` succeeds
  abbrev pub new : Multiplexer E
  new = record { event_size = 16; event_capacity = 16; event_vectors = []; next_token = 0 }

  -- `token()`
  unfoldable pub token : Multiplexer E → ℕ × Multiplexer E
  token m = (
    m.next_token,
    record m { event_vectors = m.event_vectors ++ [] ∷ []; next_token = m.next_token + 1 },
  )

  -- `visit(token)`; no vector lies outside.
  unfoldable pub visit : ℕ → Multiplexer E → List (Event E)
  visit t m = elim (get_elem? m.event_vectors t) [ none ↦ [] | some events ↦ events ]

  -- `_evnetVectors[index].emplace_back(event)`
  abbrev pub put_event : List (List (Event E)) → Event E → List (List (Event E))
  put_event vectors e = elim (get_elem? vectors e.token) [
    | none ↦ vectors
    | some events ↦ set vectors e.token (events ++ e ∷ [])
  ]

  abbrev pub put_events : List (List (Event E)) → List (Event E) → List (List (Event E))
  put_events vectors [] = vectors
  put_events vectors (e ∷ es) = put_events (put_event vectors e) es

  -- `dispatchActiveContext(count)`
  unfoldable pub dispatch_active_context : List (Event E) → Multiplexer E → Multiplexer E
  dispatch_active_context es m = record m { event_vectors = put_events m.event_vectors es }

  -- `if(_events.size() == count) _events.reserve(_events.size() << 1)`
  unfoldable pub reserve_if_full : ℕ → Multiplexer E → Multiplexer E
  reserve_if_full count m =
      if m.event_size == count
      then record m { event_capacity = max m.event_capacity (m.event_size * 2) }
      else m

  unfoldable pub poll : Waited E → Multiplexer E → Result (Unit {0}) × Multiplexer E
  poll (waited es) m = (ok tt, reserve_if_full (length es) (dispatch_active_context es m))
  poll (wait_failed errno) m =
      if errno == eintr then (ok tt, m) else (throw (epoll_wait_exception errno), m)
