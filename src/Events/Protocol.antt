-- ===== src/Events/Protocol.antt =====
-- include/policy/MultiplexerPolicy.h: the order in which epoll is told of a connection.
use fluent_net.Prelude.{Bool, true, false, ◌≡◌, refl, arith, List, [], ◌∷◌, not, ◌&&◌, subst, sym}
use fluent_net.Events.{
  MultiplexerPolicy, EventState, new, added, deleted, EpollOperation, ctl_none, ctl_add, ctl_del,
  ctl_mod, update_in, update_event_state, enable_read, enable_write, disable_read, disable_write,
}
use fluent_net.Events.Masks.{Call, reads_on, reads_off, writes_on, writes_off, updates, call, calls}

-- The operations that a sequence of calls asks for.
unfoldable pub operations : MultiplexerPolicy → List Call → List EpollOperation
operations p [] = []
operations p (updates ∷ cs) = (update_event_state p).0 ∷ operations (call p updates) cs
operations p (c ∷ cs) = operations (call p c) cs

-- Whether epoll takes an operation on a descriptor that is registered or not: it refuses to add a
-- registered one (EEXIST) and to modify or delete another (ENOENT).
abbrev pub accepts : Bool → EpollOperation → Bool
accepts registered ctl_none = true
accepts registered ctl_add = not registered
accepts registered ctl_del = registered
accepts registered ctl_mod = registered

abbrev pub registers : Bool → EpollOperation → Bool
registers registered ctl_add = true
registers registered ctl_del = false
registers registered ctl_none = registered
registers registered ctl_mod = registered

abbrev pub accepts_all : Bool → List EpollOperation → Bool
accepts_all registered [] = true
accepts_all registered (o ∷ os) = accepts registered o && accepts_all (registers registered o) os

abbrev pub registers_all : Bool → List EpollOperation → Bool
registers_all registered [] = registered
registers_all registered (o ∷ os) = registers_all (registers registered o) os

-- The state says whether the descriptor is registered.
abbrev pub is_registered : EventState → Bool
is_registered new = false
is_registered added = true
is_registered deleted = false

update_cases :
    (s : EventState) (p : MultiplexerPolicy)
    → p.event_state ≡ s
    → (accepts (is_registered s) (update_in s p).0 ≡ true)
      × (registers (is_registered s) (update_in s p).0
          ≡ is_registered (update_in s p).1.event_state)
      × (((update_in s p).0 ≡ ctl_none) → ⊥)
unfolding update_in
update_cases s p e = ground arith

-- `updateEventState` never answers EPOLL_CTL_NONE, and its answer suits what epoll knows.
pub update_event_state_accepted :
    (p : MultiplexerPolicy)
    → (accepts (is_registered p.event_state) (update_event_state p).0 ≡ true)
      × (registers (is_registered p.event_state) (update_event_state p).0
          ≡ is_registered (update_event_state p).1.event_state)
      × (¬ ((update_event_state p).0 ≡ ctl_none))
unfolding update_event_state
update_event_state_accepted p = update_cases p.event_state p refl

pub event_state-call :
    (p : MultiplexerPolicy)
    → ((call p reads_on).event_state ≡ p.event_state)
      × ((call p reads_off).event_state ≡ p.event_state)
      × ((call p writes_on).event_state ≡ p.event_state)
      × ((call p writes_off).event_state ≡ p.event_state)
unfolding call enable_read enable_write disable_read disable_write
event_state-call p = (ground arith, ground arith, ground arith, ground arith)

abbrev Follows : MultiplexerPolicy → List Call → Bool → Type 0
Follows p cs registered =
    (accepts_all registered (operations p cs) ≡ true)
    × (registers_all registered (operations p cs) ≡ is_registered (calls p cs).event_state)

-- Whatever the calls and their order, epoll can take every operation asked for, in turn, and the
-- state always says whether the descriptor is registered.
pub operations_accepted :
    (cs : List Call) (p : MultiplexerPolicy)
    → (accepts_all (is_registered p.event_state) (operations p cs) ≡ true)
      × (registers_all (is_registered p.event_state) (operations p cs)
          ≡ is_registered (calls p cs).event_state)
unfolding operations calls call
operations_accepted [] p = (refl, refl)
operations_accepted (reads_on ∷ cs) p =
    subst (λ s. Follows (call p reads_on) cs (is_registered s)) (event_state-call p).0
      (operations_accepted cs (call p reads_on))
operations_accepted (reads_off ∷ cs) p =
    subst (λ s. Follows (call p reads_off) cs (is_registered s)) (event_state-call p).1
      (operations_accepted cs (call p reads_off))
operations_accepted (writes_on ∷ cs) p =
    subst (λ s. Follows (call p writes_on) cs (is_registered s)) (event_state-call p).2
      (operations_accepted cs (call p writes_on))
operations_accepted (writes_off ∷ cs) p =
    subst (λ s. Follows (call p writes_off) cs (is_registered s)) (event_state-call p).3
      (operations_accepted cs (call p writes_off))
operations_accepted (updates ∷ cs) p =
    let a = update_event_state_accepted p in
    let ih : Follows (call p updates) cs
        (registers (is_registered p.event_state) (update_event_state p).0) =
      subst (λ b. Follows (call p updates) cs b) (sym a.1)
        (operations_accepted cs (call p updates)) in
    rw a.0 ih
