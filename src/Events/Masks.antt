-- ===== src/Events/Masks.antt =====
-- include/policy/MultiplexerPolicy.h: which bit patterns `_events` takes, and what they mean to epoll.
use Prim.Native.Nat.{bit_or}
use fluent_net.Prelude.{ℕ, Bool, true, false, not, sym, subst, ap, ◌≡◌, refl, arith, List, [], ◌∷◌}
use fluent_net.Events.{
  EventState, new, added, deleted, update_in, MultiplexerPolicy, initial, event_none, event_read,
  event_write, has, update_event_state, read_event_enabled, write_event_enabled, enable_read,
  enable_write, disable_read, disable_write,
}

-- The flags that the two interests make up.
abbrev pub mask : Bool → Bool → ℕ
mask true true = bit_or event_read event_write
mask true false = event_read
mask false true = event_write
mask false false = event_none

-- The calls of the policy.
pub data Call : Type 0 where
  reads_on reads_off writes_on writes_off updates : Call

unfoldable pub call : MultiplexerPolicy → Call → MultiplexerPolicy
call p reads_on = (enable_read p).1
call p reads_off = (disable_read p).1
call p writes_on = (enable_write p).1
call p writes_off = (disable_write p).1
call p updates = (update_event_state p).1

unfoldable pub calls : MultiplexerPolicy → List Call → MultiplexerPolicy
calls p [] = p
calls p (c ∷ cs) = calls (call p c) cs

-- EPOLLIN, EPOLLPRI and EPOLLOUT of <sys/epoll.h>.
abbrev pub epoll_in : ℕ
epoll_in = 1

abbrev pub epoll_pri : ℕ
epoll_pri = 2

abbrev pub epoll_out : ℕ
epoll_out = 4

abbrev pub at : Bool → Bool → EventState → MultiplexerPolicy
at r w s = record { events = mask r w; event_state = s }

pub enable_read-mask : (r w : Bool) (s : EventState) → enable_read (at r w s) ≡ (not r, at true w s)
unfolding enable_read
enable_read-mask true true s = refl
enable_read-mask true false s = refl
enable_read-mask false true s = refl
enable_read-mask false false s = refl

pub enable_write-mask :
    (r w : Bool) (s : EventState) → enable_write (at r w s) ≡ (not w, at r true s)
unfolding enable_write
enable_write-mask true true s = refl
enable_write-mask true false s = refl
enable_write-mask false true s = refl
enable_write-mask false false s = refl

pub disable_read-mask : (r w : Bool) (s : EventState) → disable_read (at r w s) ≡ (r, at false w s)
unfolding disable_read
disable_read-mask true true s = refl
disable_read-mask true false s = refl
disable_read-mask false true s = refl
disable_read-mask false false s = refl

pub disable_write-mask :
    (r w : Bool) (s : EventState) → disable_write (at r w s) ≡ (w, at r false s)
unfolding disable_write
disable_write-mask true true s = refl
disable_write-mask true false s = refl
disable_write-mask false true s = refl
disable_write-mask false false s = refl

pub events-update_event_state : (p : MultiplexerPolicy) → (update_event_state p).1.events ≡ p.events
unfolding update_event_state
events-update_event_state p = go p.event_state
  where
    go : (s : EventState) → (update_in s p).1.events ≡ p.events
    go new = refl
    go deleted = refl
    go added = ground arith

-- The two flags after a call.
abbrev pub flags_after : Call → Bool × Bool → Bool × Bool
flags_after reads_on (r, w) = (true, w)
flags_after reads_off (r, w) = (false, w)
flags_after writes_on (r, w) = (r, true)
flags_after writes_off (r, w) = (r, false)
flags_after updates (r, w) = (r, w)

abbrev pub flags_after_all : List Call → Bool × Bool → Bool × Bool
flags_after_all [] f = f
flags_after_all (c ∷ cs) f = flags_after_all cs (flags_after c f)

abbrev pub mask_of : Bool × Bool → ℕ
mask_of (r, w) = mask r w

abbrev pub events_in : Bool × MultiplexerPolicy → ℕ
events_in (done, p) = p.events

events-call-at :
    (c : Call) (r w : Bool) (s : EventState)
    → (call (at r w s) c).events ≡ mask_of (flags_after c (r, w))
unfolding call
events-call-at reads_on r w s = ap events_in (enable_read-mask r w s)
events-call-at reads_off r w s = ap events_in (disable_read-mask r w s)
events-call-at writes_on r w s = ap events_in (enable_write-mask r w s)
events-call-at writes_off r w s = ap events_in (disable_write-mask r w s)
events-call-at updates r w s = events-update_event_state (at r w s)

events-call :
    (c : Call) (f : Bool × Bool) (p : MultiplexerPolicy)
    → p.events ≡ mask_of f
    → (call p c).events ≡ mask_of (flags_after c f)
events-call c (r, w) p e =
    subst
      (λ (x : ℕ).
        (call (record { events = x; event_state = p.event_state }) c).events
        ≡ mask_of (flags_after c (r, w)))
      (sym e) (events-call-at c r w p.event_state)

-- `_events` always is the union of the interests that were switched on last, whatever the order of
-- the calls.
pub events-calls :
    (cs : List Call) (f : Bool × Bool) (p : MultiplexerPolicy)
    → p.events ≡ mask_of f
    → (calls p cs).events ≡ mask_of (flags_after_all cs f)
unfolding calls
events-calls [] f p e = e
events-calls (c ∷ cs) f p e = events-calls cs (flags_after c f) (call p c) (events-call c f p e)

has_bits :
    (f : Bool × Bool)
    → (has (mask_of f) event_read ≡ f.0)
      × (has (mask_of f) event_write ≡ f.1)
      × (has (mask_of f) epoll_in ≡ f.0)
      × (has (mask_of f) epoll_out ≡ f.0)
      × (has (mask_of f) epoll_pri ≡ f.1)
has_bits (true, true) = (refl, refl, refl, refl, refl)
has_bits (true, false) = (refl, refl, refl, refl, refl)
has_bits (false, true) = (refl, refl, refl, refl, refl)
has_bits (false, false) = (refl, refl, refl, refl, refl)

-- The library's own tests read the two interests back. To epoll, which uses other numbers, the read
-- interest asks for readability and for writability, and the write interest asks for neither, but
-- for urgent data.
pub epoll_bits :
    (cs : List Call)
    → let p = calls initial cs in
      let f = flags_after_all cs (false, false) in
      (read_event_enabled p ≡ f.0)
      × (write_event_enabled p ≡ f.1)
      × (has p.events epoll_in ≡ f.0)
      × (has p.events epoll_out ≡ f.0)
      × (has p.events epoll_pri ≡ f.1)
epoll_bits cs =
    rw (events-calls cs (false, false) initial refl) (has_bits (flags_after_all cs (false, false)))
