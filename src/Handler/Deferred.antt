-- ===== src/Handler/Deferred.antt =====
-- include/network/Context.h, `shutdown`, with include/handler/Handler.h: what becomes of a shutdown
-- that waits for the output buffer.
use Prim.Native.Nat.{bit_or}
use fluent_net.Prelude.{
  ℕ, Bool, true, ◌&&◌, ◌||◌, ◌≡◌, ◌∙◌, Bool-cases, inl, inr, refl, Option, none, some, arith, List,
  [], ◌∷◌, ltb, ◌==◌,
}
use fluent_net.Errors.{Result, ok, throw}
use fluent_net.Buffer.{Sent, sent, write_failed, Received, got, read_failed, is_transient, unread}
use fluent_net.Events.{EpollOperation, write_event_enabled, has}
use fluent_net.Context.{
  World, M, connected, disconnected, is_connected, shutdown, shutdown_poll, send, update,
  is_disconnecting,
}
use fluent_net.Context.Keeps.{Keeps, then-Keeps, if-Keeps, return-Keeps, when-Keeps}
use fluent_net.Context.Shutdown.{
  IsClosing, shutdown-IsClosing, shutdown_poll-IsClosing, send-IsClosing, shutdown_busy,
}
use fluent_net.Handler.Accounting.Writing.{
  stop_write-OnlyPolicy, written, settled, handle_write_sent, handle_write_again,
  handle_write_fails, handle_write_off,
}
use fluent_net.Handler.{
  Handler, Answers, update_if_needed, handle_write, close_down, handle_close, handle_read,
  handle_event, handle_error, read_done, disable_all, set_state, run_callback, caught, catch,
  hangs_up, pollin, pollpri, pollout, pollerr, pollnval, pollrdhup,
}

-- The application does not bring a connection back that is on its way out, and leaves its socket
-- alone.
abbrev pub CallbackKeeps : Bool → Option (M (Unit {0})) → Type 0
CallbackKeeps s none = Unit
CallbackKeeps s (some f) = Keeps (IsClosing s) f

pub record Callbacks (s : Bool) (h : Handler) : Type 0 where
  pub message : CallbackKeeps s h.message_callback
  pub close : CallbackKeeps s h.close_callback

module _ (s : Bool) where
  update_if_needed-IsClosing :
      (ctl : EpollOperation → Option ℕ) → Keeps (IsClosing s) (update_if_needed ctl)
  unfolding update_if_needed update
  update_if_needed-IsClosing ctl = record { keep = λ w p. ground arith }

  handle_write-IsClosing : (answers : Answers) → Keeps (IsClosing s) (handle_write answers)
  handle_write-IsClosing answers = record { keep = closing }
    where
      settled-IsClosing :
          (n : ℕ) (v : World) → IsClosing s v → IsClosing s (settled answers.ctl n v)
      settled-IsClosing n v q = elim (Bool-cases (ltb 0 n && unread v.context.output == 0)) [
        | inl z ↦
            let o = stop_write-OnlyPolicy answers.ctl v in
            rw z (record { left = rw (o.same) (q.left); wire = o.shut ∙ q.wire })
        | inr z ↦ rw z q
      ]

      go :
          (w : World) (x : Sent)
          → IsClosing s w
          → answers.write ≡ x
          → write_event_enabled w.context.policy ≡ true
          → IsClosing s (handle_write answers w).1
      go w (sent n) p e on =
          rw (handle_write_sent answers n w on e)
            (settled-IsClosing n (written w n) (record { left = p.left; wire = p.wire }))
      go w (write_failed errno) p e on = elim (Bool-cases (is_transient errno)) [
        | inl y ↦
            rw (handle_write_again answers errno w on e y) (record { left = p.left; wire = p.wire })
        | inr y ↦ rw (handle_write_fails answers errno w on e y) p
      ]

      closing : (w : World) → IsClosing s w → IsClosing s (handle_write answers w).1
      closing w p = elim (Bool-cases (write_event_enabled w.context.policy)) [
        | inl on ↦ go w answers.write p refl on
        | inr off ↦ rw (handle_write_off answers w off) p
      ]

  module _ (h : Handler) (callbacks : Callbacks s h) where
    run_callback-IsClosing :
        (f : Option (M (Unit {0}))) → CallbackKeeps s f → Keeps (IsClosing s) (run_callback f)
    run_callback-IsClosing none k = return-Keeps tt
    run_callback-IsClosing (some f) k = k

    disable_all-IsClosing : Keeps (IsClosing s) disable_all
    unfolding disable_all
    disable_all-IsClosing = record { keep = λ w p. record { left = p.left; wire = p.wire } }

    set_state-IsClosing : Keeps (IsClosing s) (set_state disconnected)
    set_state-IsClosing = record { keep = λ w p. record { left = refl; wire = p.wire } }

    close_down-IsClosing : (answers : Answers) → Keeps (IsClosing s) (close_down h answers)
    unfolding close_down
    close_down-IsClosing answers = then-Keeps (shutdown-IsClosing s) (
        then-Keeps disable_all-IsClosing (
          then-Keeps (update_if_needed-IsClosing answers.ctl) (
            then-Keeps set_state-IsClosing
              (run_callback-IsClosing h.close_callback callbacks.close))))

    handle_close-IsClosing : (answers : Answers) → Keeps (IsClosing s) (handle_close h answers)
    unfolding handle_close
    handle_close-IsClosing answers = record {
      keep = λ w p.
          (when-Keeps (is_connected w.context.state || is_disconnecting w.context.state)
              (close_down-IsClosing answers)).keep
            w p;
    }

    read_done-IsClosing :
        (r : Received) (answers : Answers) → Keeps (IsClosing s) (read_done h r answers)
    unfolding read_done handle_error
    read_done-IsClosing (got []) answers = handle_close-IsClosing answers
    read_done-IsClosing (got (x ∷ bytes)) answers =
        run_callback-IsClosing h.message_callback callbacks.message
    read_done-IsClosing (read_failed errno) answers =
        if-Keeps (is_transient errno) (return-Keeps tt) (record { keep = λ w p. p })

    handle_read-IsClosing : (answers : Answers) → Keeps (IsClosing s) (handle_read h answers)
    unfolding handle_read
    handle_read-IsClosing answers = record {
      keep = λ w p.
          (read_done-IsClosing answers.readv answers).keep _
            (record { left = p.left; wire = p.wire });
    }

    error-IsClosing : Keeps (IsClosing s) (handle_error h)
    unfolding handle_error
    error-IsClosing = record { keep = λ w p. p }

    pub handle_event-IsClosing :
        (revent : ℕ) (answers : Answers) → Keeps (IsClosing s) (handle_event h revent answers)
    unfolding handle_event handle_error
    handle_event-IsClosing revent answers =
        then-Keeps (when-Keeps (hangs_up revent) (handle_close-IsClosing answers)) (
          then-Keeps (when-Keeps (has revent (bit_or pollerr pollnval)) error-IsClosing) (
            then-Keeps
              (when-Keeps (has revent (bit_or (bit_or pollin pollpri) pollrdhup))
                (handle_read-IsClosing answers))
              (when-Keeps (has revent pollout) (handle_write-IsClosing answers))))

    caught-IsClosing : (m : M (Unit {0})) → Keeps (IsClosing s) m → Keeps (IsClosing s) (caught m)
    unfolding caught
    caught-IsClosing m k = record { keep = λ w p. go (m w) (k.keep w p) }
      where
        go : (r : Result (Unit {0}) × World) → IsClosing s r.1 → IsClosing s (catch r).1
        go (ok a, v) q = q
        go (throw e, v) q = record { left = q.left; wire = q.wire }

-- What can happen to a connection whose shutdown waits in the looper: the application sends or shuts
-- down again, epoll reports events, and the looper polls the waiting closure.
pub data Step : Type 0 where
  sends : List ℕ → Sent → (EpollOperation → Option ℕ) → Step
  shuts : Step
  polls : Step
  reports : ℕ → Answers → Step

unfoldable pub step : Handler → World → Step → World
step h w (sends bytes answer ctl) = (send bytes answer ctl w).1
step h w shuts = (shutdown w).1
step h w polls = (shutdown_poll w).1
step h w (reports revent answers) = (caught (handle_event h revent answers) w).1

unfoldable pub run : Handler → World → List Step → World
run h w [] = w
run h w (x ∷ xs) = run h (step h w x) xs

step-IsClosing :
    (s : Bool) (h : Handler)
    → Callbacks s h
    → (x : Step) (w : World) → IsClosing s w
    → IsClosing s (step h w x)
unfolding step
step-IsClosing s h k (sends bytes answer ctl) w p = (send-IsClosing s bytes answer ctl).keep w p
step-IsClosing s h k shuts w p = (shutdown-IsClosing s).keep w p
step-IsClosing s h k polls w p = (shutdown_poll-IsClosing s).keep w p
step-IsClosing s h k (reports revent answers) w p =
    (caught-IsClosing s h k (handle_event h revent answers)
        (handle_event-IsClosing s h k revent answers)).keep
      w p

run-IsClosing :
    (s : Bool) (h : Handler)
    → Callbacks s h
    → (xs : List Step) (w : World) → IsClosing s w
    → IsClosing s (run h w xs)
unfolding run
run-IsClosing s h k [] w p = p
run-IsClosing s h k (x ∷ xs) w p = run-IsClosing s h k xs (step h w x) (step-IsClosing s h k x w p)

-- A shutdown that finds bytes still to be written never asks for SHUT_WR: not at once, and not later
-- either, whatever is sent, reported or polled, and whether or not the buffer runs empty.
pub deferred_shutdown_lost :
    (h : Handler) (xs : List Step) (w : World)
    → Callbacks (w.shut) h
    → w.context.state ≡ connected
    → write_event_enabled w.context.policy ≡ true
    → (run h (shutdown w).1 xs).shut ≡ w.shut
deferred_shutdown_lost h xs w k c e =
    (run-IsClosing w.shut h k xs (shutdown w).1 (shutdown_busy w c e).0).wire
