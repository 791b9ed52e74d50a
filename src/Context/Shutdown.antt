-- ===== src/Context/Shutdown.antt =====
-- include/network/Context.h, `shutdown`.
use fluent_net.Prelude.{ℕ, ◌+◌, Bool, true, false, ◌≡◌, Option, arith, List}
use fluent_net.Errors.{ok}
use fluent_net.Buffer.{Sent}
use fluent_net.Events.{EpollOperation, write_event_enabled}
use fluent_net.Context.{
  World, connected, disconnecting, may_send, shutdown, shutdown_poll, post_shutdown,
  socket_shutdown, send,
}
use fluent_net.Context.Stream.{send_refused}
use fluent_net.Context.Keeps.{Keeps}

-- With nothing to be written, `shutdown` asks for SHUT_WR at once; a second call does nothing.
pub shutdown_idle :
    (w : World)
    → w.context.state ≡ connected
    → write_event_enabled w.context.policy ≡ false
    → let v = (shutdown w).1 in
      (v.shut ≡ true)
      × (v.context ≡ record (w.context) { state = disconnecting })
      × (v.posted ≡ w.posted)
      × (shutdown v ≡ (ok tt, v))
unfolding shutdown socket_shutdown
shutdown_idle w c e = ground arith

-- The connection is on its way out, and SHUT_WR was asked for or not.
pub record IsClosing (shut : Bool) (w : World) : Type 0 where
  pub left : may_send w.context.state ≡ false
  pub wire : w.shut ≡ shut

pub shutdown-IsClosing : (s : Bool) → Keeps (IsClosing s) shutdown
unfolding shutdown
shutdown-IsClosing s = record { keep = λ w p. ground arith }

pub shutdown_poll-IsClosing : (s : Bool) → Keeps (IsClosing s) shutdown_poll
unfolding shutdown_poll
shutdown_poll-IsClosing s = record { keep = λ w p. ground arith }

pub send-IsClosing :
    (s : Bool) (bytes : List ℕ) (answer : Sent) (ctl : EpollOperation → Option ℕ)
    → Keeps (IsClosing s) (send bytes answer ctl)
send-IsClosing s bytes answer ctl = record {
  keep = λ w p. rw (send_refused bytes answer ctl w p.left) p;
}

-- With bytes left to be written, `shutdown` leaves the work to the looper and sends nothing itself.
pub shutdown_busy :
    (w : World)
    → w.context.state ≡ connected
    → write_event_enabled w.context.policy ≡ true
    → let v = (shutdown w).1 in
      IsClosing w.shut v
      × (v.context ≡ record (w.context) { state = disconnecting })
      × (v.posted ≡ w.posted + 1)
unfolding shutdown post_shutdown
shutdown_busy w c e =
    (record { left = ground arith; wire = ground arith }, ground arith, ground arith)
