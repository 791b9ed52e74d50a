-- ===== src/Handler.antt =====
-- include/handler/HandlerBase.h and include/handler/Handler.h: what the events that epoll reports do
-- to a connection. The application's callbacks are arguments, and so is what the kernel answers to
-- the calls that one event makes.
pub mod Completion
pub mod Accounting
pub mod Deferred
pub mod Closing
pub mod Refusal
pub mod Dispatch
pub mod Tracking
mod Tests
use Prim.Native.Nat.{bit_or}
use fluent_net.Prelude.{
  ℕ, ◌+◌, ◌-◌, Bool, true, false, not, ◌&&◌, ◌||◌, Option, none, some, List, [], ◌∷◌, ◌++◌,
  if◌then◌else◌, ltb, ◌==◌, take,
}
use fluent_net.Errors.{Exception, fluent_exception, Result, ok, throw, eagain, eintr}
use fluent_net.Buffer.{Received, got, read_failed, Sent, is_transient, unread, read_from, write_to}
use fluent_net.Buffer.Contents.{contents}
use fluent_net.Events.{
  MultiplexerPolicy, EpollOperation, ctl_none, ctl_add, ctl_del, ctl_mod, has, enable_read,
  disable_read, disable_write, write_event_enabled, update_event_state,
}
use fluent_net.Context.{
  Context, World, M, ◌>>=◌, ◌>>◌, return, raise, get, put, NetworkState, connected, disconnected,
  is_connected, is_disconnecting, wrap, update, shutdown,
}

-- The values of <poll.h>.
abbrev pub pollin : ℕ
pollin = 1

abbrev pub pollpri : ℕ
pollpri = 2

abbrev pub pollout : ℕ
pollout = 4

abbrev pub pollerr : ℕ
pollerr = 8

abbrev pub pollhup : ℕ
pollhup = 16

abbrev pub pollnval : ℕ
pollnval = 32

abbrev pub pollrdhup : ℕ
pollrdhup = 8192

-- `(revent & POLLHUP) && !(revent & POLLIN)`
abbrev pub hangs_up : ℕ → Bool
hangs_up revent = has revent pollhup && not (has revent pollin)

pub record Handler : Type 0 where
  pub connect_callback : Option (M (Unit {0}))
  pub message_callback : Option (M (Unit {0}))
  pub close_callback : Option (M (Unit {0}))

-- What the kernel answers to `readv`, `write` and `epoll_ctl` while an event is handled.
pub record Answers : Type 0 where
  pub readv : Received
  pub write : Sent
  pub ctl : EpollOperation → Option ℕ

abbrev pub run_callback : Option (M (Unit {0})) → M (Unit {0})
run_callback none = return tt
run_callback (some f) = f

abbrev pub is_none : EpollOperation → Bool
is_none ctl_none = true
is_none _ = false

-- `if((operation = context->updateEventState()) != EPOLL_CTL_NONE) update(operation, bundle)`
unfoldable pub update_if_needed : (EpollOperation → Option ℕ) → M (Unit {0})
update_if_needed ctl = do
  c ← get
  let (operation, p) = update_event_state c.policy
  put (record c { policy = p })
  if not (is_none operation) then update operation (ctl operation) else return tt

-- The loop of `handleWriteComplete` on `_sendProvider` and `_sendCompletedIndex`.
unfoldable pub complete : ℕ → List ℕ → ℕ → List ℕ × ℕ
complete n [] completed = ([], completed)
complete n (q ∷ qs) completed =
    if ltb 0 n
    then (if ltb n q then ((q - n) ∷ qs, completed) else complete (n - q) qs (wrap (completed + 1)))
    else (q ∷ qs, completed)

unfoldable pub handle_write_complete : ℕ → M (Unit {0})
handle_write_complete n = do
  c ← get
  let (provider, completed) = complete n c.provider c.completed_index
  put (record c { provider = provider; completed_index = completed })

-- `output.writeTo(fd)`: what the kernel takes is a prefix of the bytes held.
unfoldable pub write_output : Sent → M ℕ
write_output answer w = elim (write_to w.context.output answer) [
  | ok (n, b) ↦ (
    ok n,
    record w {
      context = record (w.context) { output = b };
      stream = w.stream ++ take n (contents w.context.output);
    },
  )
  | throw e ↦ (throw e, w)
]

-- `context->disableWrite() && ((operation = ...) != EPOLL_CTL_NONE)`
unfoldable pub stop_write : (EpollOperation → Option ℕ) → M (Unit {0})
stop_write ctl = do
  c ← get
  let (done, p) = disable_write c.policy
  put (record c { policy = p })
  if done then update_if_needed ctl else return tt

unfoldable pub handle_write : Answers → M (Unit {0})
handle_write answers = do
  c ← get
  if write_event_enabled c.policy
      then (do
        n ← write_output answers.write
        handle_write_complete n
        c' ← get
        if ltb 0 n && unread c'.output == 0 then stop_write answers.ctl else return tt)
      else return tt

abbrev pub set_state : NetworkState → M (Unit {0})
set_state s w = (ok tt, record w { context = record (w.context) { state = s } })

-- `disableRead()` and `disableWrite()`
unfoldable pub disable_all : M (Unit {0})
disable_all = do c ← get; put (record c { policy = (disable_write (disable_read c.policy).1).1 })

-- The `catch` of `handleEvents` and of `handleNewContext`.
abbrev pub catch : Result (Unit {0}) × World → Result (Unit {0}) × World
catch (ok a, w) = (ok a, w)
catch (throw e, w) = (ok tt, record w { context = record (w.context) { exception = some e } })

unfoldable pub caught : M (Unit {0}) → M (Unit {0})
caught m w = catch (m w)

module _ (h : Handler) where
  -- What `handleClose` does with a connection that is not closed yet.
  unfoldable pub close_down : Answers → M (Unit {0})
  close_down answers = do
    shutdown
    disable_all
    update_if_needed answers.ctl
    set_state disconnected
    run_callback h.close_callback

  unfoldable pub handle_close : Answers → M (Unit {0})
  handle_close answers = do
    c ← get
    if is_connected c.state || is_disconnecting c.state then close_down answers else return tt

  unfoldable pub handle_error : M (Unit {0})
  handle_error = raise fluent_exception

  -- The switch of `handleRead` on the count that `readFrom` returned.
  unfoldable pub read_done : Received → Answers → M (Unit {0})
  read_done (got []) answers = handle_close answers
  read_done (got (x ∷ bytes)) answers = run_callback h.message_callback
  read_done (read_failed errno) answers = if is_transient errno then return tt else handle_error

  unfoldable pub handle_read : Answers → M (Unit {0})
  handle_read answers = do
    c ← get
    put (record c { input = read_from c.input answers.readv })
    read_done answers.readv answers

  unfoldable pub handle_event : ℕ → Answers → M (Unit {0})
  handle_event revent answers = do
    if hangs_up revent then handle_close answers else return tt
    if has revent (bit_or pollerr pollnval) then handle_error else return tt
    if has revent (bit_or (bit_or pollin pollpri) pollrdhup) then handle_read answers else return tt
    if has revent pollout then handle_write answers else return tt

  unfoldable pub handle_new_context : Answers → M (Unit {0})
  handle_new_context answers = caught (do
    set_state connected
    c ← get
    put (record c { policy = (enable_read c.policy).1 })
    update_if_needed answers.ctl
    run_callback h.connect_callback)
