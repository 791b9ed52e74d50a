-- ===== src/Handler/Closing.antt =====
-- include/handler/Handler.h, `handleNewContext` and `handleClose`: how a connection enters and leaves
-- epoll.
use fluent_net.Prelude.{
  ℕ, Bool, true, false, ◌||◌, ◌≡◌, ◌∙◌, refl, sym, ap, subst, Option, none, some, arith, [], ◌∷◌,
  ◌++◌, ◌⊎◌,
}
use fluent_net.Errors.{ok, epoll_control_exception}
use fluent_net.Events.{
  MultiplexerPolicy, EventState, added, deleted, EpollOperation, ctl_add, ctl_del, initial,
  event_none, event_read, update_event_state, disable_read, disable_write, enable_read,
}
use fluent_net.Events.Masks.{mask, at, disable_read-mask, disable_write-mask}
use fluent_net.Context.{
  World, M, NetworkState, connected, disconnecting, disconnected, is_connected, is_disconnecting,
  shutdown, ◌>>◌, go_on, socket_shutdown, post_shutdown, update,
}
use fluent_net.Handler.{
  Handler, Answers, close_down, handle_close, handle_new_context, caught, update_if_needed,
  disable_all, set_state, run_callback,
}

abbrev pub IsOpen : NetworkState → Type 0
IsOpen s = (s ≡ connected) ⊎ (s ≡ disconnecting)

-- `shutdown` changes the state of a connection and neither its policy nor what epoll was told.
pub shutdown_policy :
    (w : World)
    → ((shutdown w).0 ≡ ok tt)
      × ((shutdown w).1.context.policy ≡ w.context.policy)
      × ((shutdown w).1.operations ≡ w.operations)
unfolding shutdown socket_shutdown post_shutdown
shutdown_policy w = ground arith

disable_all_mask :
    (r w : Bool) (s : EventState) → (disable_write (disable_read (at r w s)).1).1 ≡ at false false s
disable_all_mask r w s = rw (disable_read-mask r w s, disable_write-mask false w s)

pub disable_all_policy :
    (r w : Bool) (p : MultiplexerPolicy)
    → p.events ≡ mask r w
    → (disable_write (disable_read p).1).1 ≡ at false false p.event_state
disable_all_policy r w p e =
    subst
      (λ (x : ℕ).
        (disable_write (disable_read (record { events = x; event_state = p.event_state })).1).1
        ≡ at false false p.event_state)
      (sym e) (disable_all_mask r w p.event_state)

-- The world that a close leaves to the callback.
abbrev pub leave : World → World
leave v = record v {
  context = record (v.context) {
    state = disconnected;
    policy = record { events = event_none; event_state = deleted };
  };
  operations = v.operations ++ (ctl_del, event_none) ∷ [];
}

abbrev pub closed : World → World
closed w = leave (shutdown w).1

pub leave_lem :
    (ctl : EpollOperation → Option ℕ) (m : M (Unit {0})) (v : World) (r wr : Bool)
    → v.context.policy.events ≡ mask r wr
    → v.context.policy.event_state ≡ added
    → ctl ctl_del ≡ none
    → (disable_all >> (update_if_needed ctl >> (set_state disconnected >> m))) v ≡ m (leave v)
unfolding disable_all update_if_needed update_event_state update
leave_lem ctl m v r wr e a k =
    let d = disable_all_policy r wr v.context.policy e in rw (d, a) (rw k refl)

pub shutdown_ok : (w : World) → shutdown w ≡ (ok tt, (shutdown w).1)
unfolding shutdown socket_shutdown post_shutdown
shutdown_ok w = ground arith

pub open_test : (s : NetworkState) → IsOpen s → (is_connected s || is_disconnecting s) ≡ true
open_test s o = ground arith

-- Closing an open connection that epoll knows: whatever its interests and whether or not a shutdown
-- was asked for before, it is deleted from epoll once, has no interest left, is DISCONNECTED, and
-- then the close callback runs. Closing a DISCONNECTED connection does nothing.
pub handle_close_lem :
    (h : Handler) (answers : Answers) (w : World) (r wr : Bool)
    → IsOpen w.context.state
    → w.context.policy.events ≡ mask r wr
    → w.context.policy.event_state ≡ added
    → answers.ctl ctl_del ≡ none
    → (handle_close h answers w ≡ run_callback h.close_callback (closed w))
      × (handle_close h answers (closed w) ≡ (ok tt, closed w))
unfolding handle_close close_down
handle_close_lem h answers w r wr o e a k =
    let (_, p, _) = shutdown_policy w in
    let v = (shutdown w).1 in
    let e' : v.context.policy.events ≡ mask r wr = ap (λ (x : MultiplexerPolicy). x.events) p ∙ e in
    let a' : v.context.policy.event_state ≡ added =
      ap (λ (x : MultiplexerPolicy). x.event_state) p ∙ a in
    let m = run_callback h.close_callback in
    (
      rw (open_test w.context.state o) (
          ap
            (go_on
              (λ _. disable_all >> (update_if_needed answers.ctl >> (set_state disconnected >> m))))
            (shutdown_ok w)
          ∙ leave_lem answers.ctl m v r wr e' a' k),
      refl,
    )

-- A new connection that epoll takes is CONNECTED and registered for reading, and then the connect
-- callback runs; what that throws is kept as the exception.
pub handle_new_context_lem :
    (h : Handler) (answers : Answers) (w : World)
    → w.context.policy ≡ initial
    → answers.ctl ctl_add ≡ none
    → handle_new_context h answers w
      ≡ caught (run_callback h.connect_callback) (record w {
        context = record (w.context) {
          state = connected;
          policy = record { events = event_read; event_state = added };
        };
        operations = w.operations ++ (ctl_add, event_read) ∷ [];
      })
unfolding handle_new_context caught update_if_needed update_event_state update enable_read
handle_new_context_lem h answers w e k = rw (e, k) refl

-- A new connection that epoll refuses keeps the exception, and its connect callback does not run; it
-- still counts as CONNECTED and as registered.
pub handle_new_context_refused :
    (h : Handler) (answers : Answers) (w : World) (errno : ℕ)
    → w.context.policy ≡ initial
    → answers.ctl ctl_add ≡ some errno
    → handle_new_context h answers w ≡ (
      ok tt,
      record w {
        context = record (w.context) {
          state = connected;
          policy = record { events = event_read; event_state = added };
          exception = some (epoll_control_exception errno);
        };
      },
    )
unfolding handle_new_context caught update_if_needed update_event_state update enable_read
handle_new_context_refused h answers w errno e k = rw (e, k) refl
