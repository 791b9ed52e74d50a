-- ===== src/Context.antt =====
-- include/network/Context.h and the policies that it inherits, include/policy/NetworksPolicy.h and
-- include/policy/SendPolicy.h: the state of a connection, sending, and shutting down.
-- A `World` is a context with what the calls to the kernel did: the bytes that it took, whether
-- SHUT_WR was asked for, and the epoll operations. What the kernel answers is an argument.
pub mod Info
pub mod Stream
pub mod Shutdown
pub mod Keeps
pub mod Samples
mod Tests
use Prim.Native.Nat.{bit_or}
use fluent_net.Prelude.{
  ℕ, ◌&&◌, ◌+◌, ◌-◌, ◌%◌, ◌^◌, Bool, true, false, not, Option, none, some, List, [], ◌∷◌, ◌++◌,
  if◌then◌else◌, ltb, ◌==◌, length, take, drop,
}
use fluent_net.Errors.{
  Exception, socket_exception, write_exception, epoll_control_exception, Result, ok, throw,
}
use fluent_net.Buffer.{Buffer, Sent, sent, write_failed, is_transient, append}
use fluent_net.Buffer
use fluent_net.Events.{
  MultiplexerPolicy, EpollOperation, event_write, has, enable_write, update_event_state,
  write_event_enabled,
}

pub data NetworkState : Type 0 where
  connecting connected disconnecting disconnected : NetworkState

-- `size_t`
abbrev pub wrap : ℕ → ℕ
wrap n = n % 2 ^ 64

-- The members that change: `_nState`, the event policy, the two buffers, `_sendProvider` with the
-- front first, the two indices, and `exception`.
pub record Context : Type 0 where
  pub state : NetworkState
  pub policy : MultiplexerPolicy
  pub input : Buffer
  pub output : Buffer
  pub provider : List ℕ
  pub current_index : ℕ
  pub completed_index : ℕ
  pub exception : Option Exception

pub record World : Type 0 where
  pub context : Context
  pub stream : List ℕ
  pub shut : Bool
  pub operations : List (EpollOperation × ℕ)
  -- the asynchronous shutdowns that were posted to the looper
  pub posted : ℕ

-- Code on a connection: it may throw, and what it changed before that stays.
abbrev pub M : Type 0 → Type 0
M A = World → Result A × World

abbrev pub go_on : {A B : Type 0} → (A → M B) → Result A × World → Result B × World
go_on f (ok a, w) = f a w
go_on f (throw e, w) = (throw e, w)

infixl 5 ◌>>=◌ ◌>>◌
abbrev pub ◌>>=◌ : {A B : Type 0} → M A → (A → M B) → M B
◌>>=◌ m f w = go_on f (m w)

abbrev pub ◌>>◌ : {B : Type 0} → M (Unit {0}) → M B → M B
m >> k = m >>= λ _. k

abbrev pub return : {A : Type 0} → A → M A
return a w = (ok a, w)

abbrev pub raise : {A : Type 0} → Exception → M A
raise e w = (throw e, w)

abbrev pub get : M Context
get w = (ok w.context, w)

abbrev pub put : Context → M (Unit {0})
put c w = (ok tt, record w { context = c })

abbrev pub is_connected : NetworkState → Bool
is_connected connected = true
is_connected _ = false

abbrev pub is_disconnecting : NetworkState → Bool
is_disconnecting disconnecting = true
is_disconnecting _ = false

abbrev pub is_disconnected : NetworkState → Bool
is_disconnected disconnected = true
is_disconnected _ = false

-- `Multiplexer::update`; `answer` is the `errno` of a failed `epoll_ctl`.
unfoldable pub update : EpollOperation → Option ℕ → M (Unit {0})
update operation none w =
    (ok tt, record w { operations = w.operations ++ (operation, w.context.policy.events) ∷ [] })
update operation (some errno) w = (throw (epoll_control_exception errno), w)

-- `Socket::write`: what the kernel takes is a prefix of the bytes.
unfoldable pub socket_write : List ℕ → Sent → M ℕ
socket_write bytes (sent n) w = (ok n, record w { stream = w.stream ++ take n bytes })
socket_write bytes (write_failed errno) w =
    (if is_transient errno then ok 0 else throw (socket_exception errno), w)

-- `Socket::shutdown`
unfoldable pub socket_shutdown : M (Unit {0})
socket_shutdown w = (ok tt, record w { shut = true })

-- `Completion`: the token that it is polled with.
abbrev pub invalid : ℕ
invalid = 0

abbrev pub fast_complete : ℕ
fast_complete = 1

unfoldable pub poll : Context → ℕ → Bool
poll c token = ltb token c.completed_index

-- `updateEventState()` and `updateMultiplexer(hint)`
unfoldable pub refresh : (EpollOperation → Option ℕ) → M (Unit {0})
refresh ctl = do
  c ← get
  let (hint, p) = update_event_state c.policy
  put (record c { policy = p })
  update hint (ctl hint)

-- `if(!(_events & EVENT_WRITE)) { _events |= EVENT_WRITE; ... }`
unfoldable pub request_write : (EpollOperation → Option ℕ) → M (Unit {0})
request_write ctl = do
  c ← get
  if not (write_event_enabled c.policy)
      then (do
        put (record c {
          policy = record (c.policy) { events = bit_or c.policy.events event_write };
        })
        refresh ctl)
      else return tt

-- The part of `send` for what the kernel did not take: buffer, provider, token, write interest.
unfoldable pub enqueue : List ℕ → (EpollOperation → Option ℕ) → M ℕ
enqueue rest ctl = do
  c ← get
  put (record c {
    output = append c.output rest;
    provider = c.provider ++ length rest ∷ [];
    current_index = wrap (c.current_index + 1);
  })
  request_write ctl
  return c.current_index

abbrev pub may_send : NetworkState → Bool
may_send connecting = true
may_send connected = true
may_send disconnecting = false
may_send disconnected = false

-- `send`: the result is the completion's token.
unfoldable pub send : List ℕ → Sent → (EpollOperation → Option ℕ) → M ℕ
send bytes answer ctl = do
  c ← get
  if may_send c.state
      then (do
        ret ← socket_write bytes answer
        if ret == length bytes then return fast_complete else enqueue (drop ret bytes) ctl)
      else return invalid

-- The asynchronous half of `shutdown`: the closure that the looper polls until it answers true.
unfoldable pub shutdown_poll : M Bool
shutdown_poll = do
  c ← get
  if is_connected c.state && not (write_event_enabled c.policy)
      then (do socket_shutdown; return true)
      else return (not (is_connected c.state))

-- `this->makeFuture().poll(...)`: the closure is left to the looper.
unfoldable pub post_shutdown : M (Unit {0})
post_shutdown w = (ok tt, record w { posted = w.posted + 1 })

unfoldable pub shutdown : M (Unit {0})
shutdown = do
  c ← get
  if is_connected c.state
      then (do
        put (record c { state = disconnecting })
        if not (write_event_enabled c.policy) then socket_shutdown else post_shutdown)
      else return tt
