-- ===== src/Handler/Accounting/Writing.antt =====
-- include/handler/Handler.h, `handleWrite`.
use fluent_net.Prelude.{
  ℕ, ◌+◌, ◌≤◌, true, false, ◌≡◌, refl, sym, ap, subst, ◌∙◌, Option, ◌++◌, arith, length, take,
  length-drop, append_assoc, take-append-drop, Bool-cases, inl, inr, if◌then◌else◌, ltb, ◌==◌, ◌&&◌,
}
use fluent_net.Errors.{ok, throw, write_exception}
use fluent_net.Buffer.{Sent, sent, write_failed, is_transient, unread, write_to, has_read}
use fluent_net.Buffer.Contents.{contents, length-contents, has_read-IsValid, contents-has_read}
use fluent_net.Events.{MultiplexerPolicy, EpollOperation, write_event_enabled, disable_write}
use fluent_net.Events.Masks.{mask, events_in, events-update_event_state, disable_write-mask}
use fluent_net.Context.{World, update}
use fluent_net.Context.Stream.{pipeline}
use fluent_net.Handler.{
  Answers, complete, handle_write_complete, write_output, stop_write, update_if_needed,
  handle_write,
}
use fluent_net.Handler.Completion.{complete_owed}
use fluent_net.Handler.Accounting.Sending.{IsAccounted, IsMask, TakesAtMost}

-- Only the policy changes when epoll is told to stop asking for writability.
pub record OnlyPolicy (v w : World) : Type 0 where
  pub same : v.context ≡ record (w.context) { policy = v.context.policy }
  pub stream : v.stream ≡ w.stream
  pub shut : v.shut ≡ w.shut

pub stop_write-OnlyPolicy :
    (ctl : EpollOperation → Option ℕ) (w : World) → OnlyPolicy (stop_write ctl w).1 w
unfolding stop_write update_if_needed update
stop_write-OnlyPolicy ctl w = ground arith

disable_write-IsMask : (p : MultiplexerPolicy) → IsMask p → IsMask (disable_write p).1
disable_write-IsMask p (r, w, e) = (
  r,
  false,
  subst
      (λ (x : ℕ).
        events_in (disable_write (record { events = x; event_state = p.event_state }))
        ≡ mask r false)
      (sym e) (ap events_in (disable_write-mask r w p.event_state)),
)

stop_write-events :
    (ctl : EpollOperation → Option ℕ) (w : World)
    → (stop_write ctl w).1.context.policy.events ≡ events_in (disable_write w.context.policy)
unfolding stop_write update_if_needed update
stop_write-events ctl w =
    ground (arith, events-update_event_state (disable_write w.context.policy).1)

-- The world after the kernel took `n` bytes and the messages that end among them are ticked off.
abbrev pub written : World → ℕ → World
written w n = record w {
  context = record (w.context) {
    output = has_read w.context.output n;
    provider = (complete n w.context.provider w.context.completed_index).0;
    completed_index = (complete n w.context.provider w.context.completed_index).1;
  };
  stream = w.stream ++ take n (contents w.context.output);
}

abbrev pub settled : (EpollOperation → Option ℕ) → ℕ → World → World
settled ctl n v = if ltb 0 n && unread v.context.output == 0 then (stop_write ctl v).1 else v

pub handle_write_sent :
    (answers : Answers) (n : ℕ) (w : World)
    → write_event_enabled w.context.policy ≡ true
    → answers.write ≡ sent n
    → (handle_write answers w).1 ≡ settled answers.ctl n (written w n)
unfolding handle_write write_output handle_write_complete write_to
handle_write_sent answers n w on e = rw (on, e, handle_write, write_output, write_to) (ground arith)

-- A transient failure of `write` counts as no bytes.
pub handle_write_again :
    (answers : Answers) (errno : ℕ) (w : World)
    → write_event_enabled w.context.policy ≡ true
    → answers.write ≡ write_failed errno
    → is_transient errno ≡ true
    → (handle_write answers w).1 ≡ written w 0
unfolding handle_write write_output handle_write_complete write_to
handle_write_again answers errno w on e t = ground arith

pub handle_write_fails :
    (answers : Answers) (errno : ℕ) (w : World)
    → write_event_enabled w.context.policy ≡ true
    → answers.write ≡ write_failed errno
    → is_transient errno ≡ false
    → handle_write answers w ≡ (throw (write_exception errno), w)
unfolding handle_write write_output write_to
handle_write_fails answers errno w on e t = ground arith

pub handle_write_off :
    (answers : Answers) (w : World)
    → write_event_enabled w.context.policy ≡ false
    → handle_write answers w ≡ (ok tt, w)
unfolding handle_write
handle_write_off answers w off = ground arith

module _ (n : ℕ) (w : World) (a : IsAccounted w.context) (h : n ≤ unread w.context.output) where
  unread-written : unread (written w n).context.output + n ≡ unread w.context.output
  unread-written =
      let b = w.context.output in
      let v = has_read-IsValid b n a.valid h in
      omega (
        arith,
        length-contents (has_read b n) v,
        length-contents b a.valid,
        ap length (contents-has_read b n a.valid h),
        length-drop n (contents b),
      )

  written-IsAccounted :
      write_event_enabled w.context.policy ≡ true → IsAccounted (written w n).context
  written-IsAccounted on =
      let b = w.context.output in
      let c =
        complete_owed n w.context.provider w.context.completed_index (omega (arith, a.owed))
          a.positive in
      record {
        valid = has_read-IsValid b n a.valid h;
        owed = omega (arith, c.0, a.owed, unread-written);
        positive = c.1;
        tokens = c.2 ∙ a.tokens;
        masked = a.masked;
        wanted = λ _ _. on;
      }

  pipeline-written : pipeline (written w n) ≡ pipeline w
  pipeline-written =
      rw (contents-has_read w.context.output n a.valid h, append_assoc)
        (ap (◌++◌ w.stream) (take-append-drop n (contents w.context.output)))

stop_write-IsAccounted :
    (ctl : EpollOperation → Option ℕ) (v : World)
    → IsAccounted v.context
    → unread v.context.output ≡ 0
    → IsAccounted (stop_write ctl v).1.context
stop_write-IsAccounted ctl v a z =
    let o = stop_write-OnlyPolicy ctl v in
    let (r, wr, e) = disable_write-IsMask v.context.policy a.masked in
    rw (o.same) (record {
      valid = a.valid;
      owed = a.owed;
      positive = a.positive;
      tokens = a.tokens;
      masked = (r, wr, stop_write-events ctl v ∙ e);
      wanted = λ _ more. absurd (omega arith);
    })

-- `handleWrite` keeps the books, whatever the kernel answers and whether or not it throws.
pub handle_write-IsAccounted :
    (answers : Answers) (w : World)
    → IsAccounted w.context
    → TakesAtMost (unread w.context.output) answers.write
    → IsAccounted (handle_write answers w).1.context
handle_write-IsAccounted answers w a t = elim (Bool-cases (write_event_enabled w.context.policy)) [
  | inl on ↦ go answers.write refl on t
  | inr off ↦ rw (handle_write_off answers w off) a
]
  where
    go :
        (s : Sent)
        → answers.write ≡ s
        → write_event_enabled w.context.policy ≡ true
        → TakesAtMost (unread w.context.output) s
        → IsAccounted (handle_write answers w).1.context
    go (sent n) e on t =
        let k = written-IsAccounted n w a t on in
        rw (handle_write_sent answers n w on e)
          (elim (Bool-cases (ltb 0 n && unread (written w n).context.output == 0)) [
            | inl z ↦ rw z (stop_write-IsAccounted answers.ctl (written w n) k (ground arith))
            | inr z ↦ rw z k
          ])
    go (write_failed errno) e on t = elim (Bool-cases (is_transient errno)) [
      | inl y ↦
          rw (handle_write_again answers errno w on e y)
            (written-IsAccounted 0 w a (omega arith) on)
      | inr y ↦ rw (handle_write_fails answers errno w on e y) a
    ]

-- `handleWrite` moves bytes from the output buffer to the kernel: none is lost, doubled or moved.
pub pipeline-handle_write :
    (answers : Answers) (w : World)
    → IsAccounted w.context
    → TakesAtMost (unread w.context.output) answers.write
    → pipeline (handle_write answers w).1 ≡ pipeline w
pipeline-handle_write answers w a t = elim (Bool-cases (write_event_enabled w.context.policy)) [
  | inl on ↦ go answers.write refl on t
  | inr off ↦ rw (handle_write_off answers w off)
]
  where
    go :
        (s : Sent)
        → answers.write ≡ s
        → write_event_enabled w.context.policy ≡ true
        → TakesAtMost (unread w.context.output) s
        → pipeline (handle_write answers w).1 ≡ pipeline w
    go (sent n) e on t =
        rw (handle_write_sent answers n w on e)
          (elim (Bool-cases (ltb 0 n && unread (written w n).context.output == 0)) [
            | inl z ↦
                let o = stop_write-OnlyPolicy answers.ctl (written w n) in
                rw (z, o.stream, o.same) (pipeline-written n w a t)
            | inr z ↦ rw z (pipeline-written n w a t)
          ])
    go (write_failed errno) e on t = elim (Bool-cases (is_transient errno)) [
      | inl y ↦
          rw (handle_write_again answers errno w on e y) (pipeline-written 0 w a (omega arith))
      | inr y ↦ rw (handle_write_fails answers errno w on e y)
    ]
