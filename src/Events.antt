-- ===== src/Events.antt =====
-- include/policy/MultiplexerPolicy.h: the events that a connection asks epoll for, and the operation
-- that tells epoll of a change. The masks are the numbers that <signal.h> gives the names used.
pub mod Info
pub mod Masks
pub mod Protocol
mod Tests
use Prim.Native.Nat.{bit_and, bit_or}
use fluent_net.Prelude.{ℕ, ◌-◌, ◌^◌, Bool, true, false, not, if◌then◌else◌, ◌==◌}

abbrev pub poll_in : ℕ
poll_in = 1

abbrev pub poll_out : ℕ
poll_out = 2

abbrev pub poll_pri : ℕ
poll_pri = 5

abbrev pub event_none : ℕ
event_none = 0

-- `POLL_IN | POLL_PRI`
abbrev pub event_read : ℕ
event_read = bit_or poll_in poll_pri

abbrev pub event_write : ℕ
event_write = poll_out

-- `x & mask`, as a condition
abbrev pub has : ℕ → ℕ → Bool
has x mask = not (bit_and x mask == 0)

-- `~mask` on `uint32_t`
abbrev pub complement : ℕ → ℕ
complement mask = 2 ^ 32 - 1 - mask

pub data EventState : Type 0 where
  new added deleted : EventState

pub data EpollOperation : Type 0 where
  ctl_none ctl_add ctl_del ctl_mod : EpollOperation

pub record MultiplexerPolicy : Type 0 where
  pub events : ℕ
  pub event_state : EventState

abbrev pub initial : MultiplexerPolicy
initial = record { events = event_none; event_state = new }

-- The switch of `updateEventState` on `_eState`.
unfoldable pub update_in : EventState → MultiplexerPolicy → EpollOperation × MultiplexerPolicy
update_in new p = (ctl_add, record p { event_state = added })
update_in deleted p = (ctl_add, record p { event_state = added })
update_in added p =
    if p.events == event_none then (ctl_del, record p { event_state = deleted }) else (ctl_mod, p)

unfoldable pub update_event_state : MultiplexerPolicy → EpollOperation × MultiplexerPolicy
unfolding update_in
update_event_state p = update_in p.event_state p

abbrev pub read_event_enabled : MultiplexerPolicy → Bool
read_event_enabled p = has p.events event_read

abbrev pub write_event_enabled : MultiplexerPolicy → Bool
write_event_enabled p = has p.events event_write

-- `if(!(_events & mask)) { _events |= mask; return true; } return false;`
unfoldable pub enable : ℕ → MultiplexerPolicy → Bool × MultiplexerPolicy
enable mask p =
    if not (has p.events mask)
    then (true, record p { events = bit_or p.events mask })
    else (false, p)

unfoldable pub disable : ℕ → MultiplexerPolicy → Bool × MultiplexerPolicy
disable mask p =
    if has p.events mask
    then (true, record p { events = bit_and p.events (complement mask) })
    else (false, p)

unfoldable pub enable_read : MultiplexerPolicy → Bool × MultiplexerPolicy
unfolding enable
enable_read p = enable event_read p

unfoldable pub enable_write : MultiplexerPolicy → Bool × MultiplexerPolicy
unfolding enable
enable_write p = enable event_write p

unfoldable pub disable_read : MultiplexerPolicy → Bool × MultiplexerPolicy
unfolding disable
disable_read p = disable event_read p

unfoldable pub disable_write : MultiplexerPolicy → Bool × MultiplexerPolicy
unfolding disable
disable_write p = disable event_write p
