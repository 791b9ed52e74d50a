-- ===== src/Handler/Tracking.antt =====
-- include/handler: a connection that epoll knows stays open, and one that is deleted stays out.
pub mod Reports
use Prim.Native.Nat.{bit_or}
use fluent_net.Prelude.{
  ℕ, Bool, true, false, ◌&&◌, ◌||◌, ◌≡◌, ◌∙◌, sym, ap, subst, Bool-cases, Option-cases, inl, inr,
  ◌⊎◌, refl, Option, none, some, arith, List, [], ◌∷◌, ltb, ◌==◌, if◌then◌else◌, if-both,
}
use fluent_net.Errors.{Result, ok, throw, epoll_control_exception}
use fluent_net.Buffer.{Sent, sent, write_failed, Received, got, read_failed, is_transient, unread}
use fluent_net.Events.{
  MultiplexerPolicy, EventState, initial, ctl_add, ctl_del, added, deleted, EpollOperation,
  event_none, write_event_enabled, has, update_event_state, disable_write,
}
use fluent_net.Events.Masks.{mask, at, disable_write-mask}
use fluent_net.Context.{
  World, M, go_on, ◌>>◌, connected, disconnecting, disconnected, is_connected, update,
  is_disconnecting, shutdown, socket_shutdown, post_shutdown,
}
use fluent_net.Context.Keeps.{Keeps, then-Keeps, if-Keeps, return-Keeps, when-Keeps}
use fluent_net.Handler.Closing.{
  IsOpen, handle_new_context_lem, handle_new_context_refused, leave, leave_lem, shutdown_ok,
  shutdown_policy, open_test, disable_all_policy,
}
use fluent_net.Handler.Accounting.Writing.{
  written, settled, handle_write_sent, handle_write_again, handle_write_fails, handle_write_off,
}
use fluent_net.Handler.{
  Handler, Answers, update_if_needed, stop_write, handle_write, close_down, handle_close,
  handle_read, handle_event, handle_new_context, handle_error, read_done, disable_all, set_state,
  run_callback, caught, catch, hangs_up, pollin, pollpri, pollout, pollerr, pollnval, pollrdhup,
}

-- Epoll knows the connection and reports at least that it can be read.
abbrev pub IsRegistered : World → Type 0
IsRegistered w =
    (writes : Bool) × (w.context.policy ≡ at true writes added) × IsOpen w.context.state

abbrev pub out : MultiplexerPolicy
out = at false false deleted

-- It was deleted from epoll, and is DISCONNECTED; or epoll refused, and it stays DISCONNECTING.
abbrev pub IsDetached : World → Type 0
IsDetached w = (w.context.policy ≡ out) × (w.context.state ≡ disconnected)

abbrev pub IsStuck : World → Type 0
IsStuck w = (w.context.policy ≡ out) × (w.context.state ≡ disconnecting)

abbrev pub IsTracked : World → Type 0
IsTracked w = IsRegistered w ⊎ IsDetached w

abbrev pub IsLeft : World → Type 0
IsLeft w = IsTracked w ⊎ IsStuck w

-- The connection is tracked on return; after an exception it may be stuck.
abbrev pub After : {A : Type 0} → Result A × World → Type 0
After (ok a, w) = IsTracked w
After (throw e, w) = IsLeft w

pub record Tracks {A : Type 0} (m : M A) : Type 0 where
  pub track : (w : World) → IsTracked w → After (m w)

pub keeps-After : {A : Type 0} (r : Result A × World) → IsTracked r.1 → After r
keeps-After (ok a, w) h = h
keeps-After (throw e, w) h = inl h

pub Keeps-Tracks : {A : Type 0} {m : M A} → Keeps IsTracked m → Tracks m
Keeps-Tracks {m = m} k = record { track = λ w h. keeps-After (m w) (k.keep w h) }

go_on-After :
    {B : Type 0} (k : M B) (r : Result (Unit {0}) × World)
    → Tracks k
    → After r
    → After (go_on (λ _. k) r)
go_on-After k (ok a, w) t h = t.track w h
go_on-After k (throw e, w) t h = h

pub then-Tracks : {B : Type 0} {m : M (Unit {0})} {k : M B} → Tracks m → Tracks k → Tracks (m >> k)
then-Tracks {m = m} {k = k} tm tk = record { track = λ w h. go_on-After k (m w) tk (tm.track w h) }

pub when-Tracks :
    (b : Bool) {m : M (Unit {0})} → Tracks m → Tracks (if b then m else (λ w. (ok tt, w)))
when-Tracks true t = t
when-Tracks false t = record { track = λ w h. h }

abbrev pub with_policy : World → MultiplexerPolicy → World
with_policy w p = record w { context = record (w.context) { policy = p } }

stop_write-at :
    (ctl : EpollOperation → Option ℕ) (w : World) (writes : Bool)
    → ((stop_write ctl (with_policy w (at true writes added))).1.context.policy
        ≡ at true false added)
      × ((stop_write ctl (with_policy w (at true writes added))).1.context.state ≡ w.context.state)
unfolding stop_write update_if_needed update_event_state update disable_write
stop_write-at ctl w true = ground arith
stop_write-at ctl w false = ground arith

stop_write-IsRegistered :
    (ctl : EpollOperation → Option ℕ) (w : World)
    → IsRegistered w
    → IsRegistered (stop_write ctl w).1
stop_write-IsRegistered ctl w (writes, e, o) =
    let (policy, state) = stop_write-at ctl w writes in
    (
      false,
      subst (λ p. (stop_write ctl (with_policy w p)).1.context.policy ≡ at true false added) (sym e)
          policy,
      subst (λ p. IsOpen (stop_write ctl (with_policy w p)).1.context.state) (sym e)
          (subst IsOpen (sym state) o),
    )

settled-IsRegistered :
    (ctl : EpollOperation → Option ℕ) (n : ℕ) (v : World)
    → IsRegistered v
    → IsRegistered (settled ctl n v)
settled-IsRegistered ctl n v h = elim (Bool-cases (ltb 0 n && unread v.context.output == 0)) [
  | inl z ↦ rw z (stop_write-IsRegistered ctl v h)
  | inr z ↦ rw z h
]

write-IsRegistered :
    (answers : Answers) (w : World) (x : Sent)
    → IsRegistered w
    → answers.write ≡ x
    → write_event_enabled w.context.policy ≡ true
    → IsRegistered (handle_write answers w).1
write-IsRegistered answers w (sent n) h e on =
    rw (handle_write_sent answers n w on e)
      (settled-IsRegistered answers.ctl n (written w n) (h.0, h.1, h.2))
write-IsRegistered answers w (write_failed errno) h e on = elim (Bool-cases (is_transient errno)) [
  | inl y ↦ rw (handle_write_again answers errno w on e y) (h.0, h.1, h.2)
  | inr y ↦ rw (handle_write_fails answers errno w on e y) h
]

pub handle_write-Keeps : (answers : Answers) → Keeps IsTracked (handle_write answers)
handle_write-Keeps answers = record { keep = tracked }
  where
    tracked : (w : World) → IsTracked w → IsTracked (handle_write answers w).1
    tracked w (inr h) =
        let off : write_event_enabled w.context.policy ≡ false = ap write_event_enabled h.0 in
        rw (handle_write_off answers w off) (inr h)
    tracked w (inl h) = elim (Bool-cases (write_event_enabled w.context.policy)) [
      | inl on ↦ inl (write-IsRegistered answers w answers.write h refl on)
      | inr off ↦ rw (handle_write_off answers w off) (inl h)
    ]

-- The application keeps its connections tracked, as its calls of `send` and `shutdown` do.
abbrev pub CallbackTracks : Option (M (Unit {0})) → Type 0
CallbackTracks none = Unit
CallbackTracks (some f) = Keeps IsTracked f

pub record CallbacksTrack (h : Handler) : Type 0 where
  pub connects : CallbackTracks h.connect_callback
  pub message : CallbackTracks h.message_callback
  pub close : CallbackTracks h.close_callback

pub run_callback-Keeps :
    (f : Option (M (Unit {0}))) → CallbackTracks f → Keeps IsTracked (run_callback f)
run_callback-Keeps none k = return-Keeps tt
run_callback-Keeps (some f) k = k

pub shutdown_open :
    (w : World) → IsOpen w.context.state → (shutdown w).1.context.state ≡ disconnecting
unfolding shutdown socket_shutdown post_shutdown
shutdown_open w o = ground arith

shutdown_closed : (w : World) → w.context.state ≡ disconnected → (shutdown w).1 ≡ w
unfolding shutdown
shutdown_closed w e = rw e refl

-- `shutdown` keeps a connection tracked.
pub shutdown-Keeps : Keeps IsTracked shutdown
shutdown-Keeps = record { keep = tracked }
  where
    tracked : (w : World) → IsTracked w → IsTracked (shutdown w).1
    tracked w (inl (writes, e, o)) =
        inl (writes, (shutdown_policy w).1 ∙ e, inr (shutdown_open w o))
    tracked w (inr d) = rw (shutdown_closed w d.1) (inr d)
