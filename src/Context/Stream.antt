-- ===== src/Context/Stream.antt =====
-- include/network/Context.h, `send`: in which order the bytes of a connection reach the kernel.
use fluent_net.Prelude.{
  ℕ, ◌+◌, ◌≤◌, true, false, ◌≡◌, sym, ap, ap₂, ◌<◌, ◌∙◌, Option, List, [], ◌∷◌, ◌++◌, arith, length,
  take, drop, inl, inr, ◌⊎◌, append_assoc, take-append-drop, length-drop, append-nil, suc, drop_all,
  append_cancel_left, ◌≢◌,
}
use native.Mathlib.Decide.{ℕ_discrete}
use fluent_net.Errors.{ok, throw, socket_exception}
use fluent_net.Buffer.{Sent, sent, write_failed, is_transient, append, unread}
use fluent_net.Buffer.Contents.{IsValid, contents}
use fluent_net.Buffer.Io.{limit, contents-append}
use fluent_net.Events.{EpollOperation}
use fluent_net.Context.{
  World, may_send, send, enqueue, request_write, refresh, update, socket_write, fast_complete,
  invalid,
}

-- All that the connection was given to send and has not lost: what the kernel took, then what the
-- output buffer holds.
abbrev pub pipeline : World → List ℕ
pipeline w = w.stream ++ contents w.context.output

-- Nothing that epoll is told touches the bytes.
record SameBytes (v w : World) : Type 0 where
  stream : w.stream ≡ v.stream
  output : w.context.output ≡ v.context.output
  provider : w.context.provider ≡ v.context.provider
  state : w.context.state ≡ v.context.state

request_write-SameBytes :
    (ctl : EpollOperation → Option ℕ) (w : World) → SameBytes w (request_write ctl w).1
unfolding request_write refresh update
request_write-SameBytes ctl w = ground arith

record Enqueued (w : World) (rest : List ℕ) (v : World) : Type 0 where
  stream : v.stream ≡ w.stream
  output : v.context.output ≡ append w.context.output rest
  provider : v.context.provider ≡ w.context.provider ++ length rest ∷ []
  state : v.context.state ≡ w.context.state

enqueue-Enqueued :
    (rest : List ℕ) (ctl : EpollOperation → Option ℕ) (w : World)
    → Enqueued w rest (enqueue rest ctl w).1
unfolding enqueue request_write refresh update
enqueue-Enqueued rest ctl w = ground arith

abbrev pub took : World → List ℕ → World
took w bytes = record w { stream = w.stream ++ bytes }

pub send_fast :
    (bytes : List ℕ) (n : ℕ) (ctl : EpollOperation → Option ℕ) (w : World)
    → may_send w.context.state ≡ true
    → n ≡ length bytes
    → send bytes (sent n) ctl w ≡ (ok fast_complete, took w (take n bytes))
unfolding send socket_write
send_fast bytes n ctl w live e = ground arith

pub send_slow :
    (bytes : List ℕ) (n : ℕ) (ctl : EpollOperation → Option ℕ) (w : World)
    → may_send w.context.state ≡ true
    → n ≢ length bytes
    → send bytes (sent n) ctl w ≡ enqueue (drop n bytes) ctl (took w (take n bytes))
unfolding send socket_write
send_slow bytes n ctl w live e = ground arith

pub send_again :
    (bytes : List ℕ) (errno : ℕ) (ctl : EpollOperation → Option ℕ) (w : World)
    → may_send w.context.state ≡ true
    → is_transient errno ≡ true
    → 0 < length bytes
    → send bytes (write_failed errno) ctl w ≡ enqueue bytes ctl w
unfolding send socket_write
send_again bytes errno ctl w live e h = ground arith

pub send_fails :
    (bytes : List ℕ) (errno : ℕ) (ctl : EpollOperation → Option ℕ) (w : World)
    → may_send w.context.state ≡ true
    → is_transient errno ≡ false
    → send bytes (write_failed errno) ctl w ≡ (throw (socket_exception errno), w)
unfolding send socket_write
send_fails bytes errno ctl w live e = ground arith

pub send_refused :
    (bytes : List ℕ) (answer : Sent) (ctl : EpollOperation → Option ℕ) (w : World)
    → may_send w.context.state ≡ false
    → send bytes answer ctl w ≡ (ok invalid, w)
unfolding send
send_refused bytes answer ctl w dead = ground arith

pipeline-enqueue :
    (rest : List ℕ) (ctl : EpollOperation → Option ℕ) (w : World)
    → IsValid w.context.output
    → unread w.context.output + length rest ≤ limit
    → pipeline (enqueue rest ctl w).1 ≡ pipeline w ++ rest
pipeline-enqueue rest ctl w v h =
    let q = enqueue-Enqueued rest ctl w in
    ap₂ (λ s o. s ++ contents o) q.stream q.output
    ∙ ap (◌++◌ w.stream) (contents-append w.context.output rest v h)
    ∙ sym (append_assoc w.stream (contents w.context.output) rest)

-- Where the kernel takes `n` bytes of a message at once, these go in front of all that the output
-- buffer still holds, and the rest goes behind it; also if epoll then refuses the write interest.
pub pipeline-send :
    (bytes : List ℕ) (n : ℕ) (ctl : EpollOperation → Option ℕ) (w : World)
    → may_send w.context.state ≡ true
    → n ≤ length bytes
    → IsValid w.context.output
    → unread w.context.output + length bytes ≤ limit
    → pipeline (send bytes (sent n) ctl w).1
      ≡ w.stream ++ (take n bytes ++ (contents w.context.output ++ drop n bytes))
pipeline-send bytes n ctl w live h v l = elim (ℕ_discrete n (length bytes)) [
  | yes e ↦
      rw (send_fast bytes n ctl w live e, drop_all n bytes (omega arith))
        (simp (append-nil, append_assoc))
  | no ne ↦ rw (send_slow bytes n ctl w live ne) (
      pipeline-enqueue (drop n bytes) ctl (took w (take n bytes)) v
        (omega (arith, length-drop n bytes))
      ∙ simp append_assoc)
]

-- In order: a message goes behind all earlier ones if nothing is held back, or if the kernel takes
-- nothing at once.
pub send_in_order :
    (bytes : List ℕ) (n : ℕ) (ctl : EpollOperation → Option ℕ) (w : World)
    → may_send w.context.state ≡ true
    → n ≤ length bytes
    → IsValid w.context.output
    → unread w.context.output + length bytes ≤ limit
    → (contents w.context.output ≡ []) ⊎ (n ≡ 0)
    → pipeline (send bytes (sent n) ctl w).1 ≡ pipeline w ++ bytes
send_in_order bytes n ctl w live h v l (inl empty) =
    pipeline-send bytes n ctl w live h v l
    ∙ rw (empty, append-nil) (ap (◌++◌ w.stream) (take-append-drop n bytes))
send_in_order bytes n ctl w live h v l (inr none_taken) =
    pipeline-send bytes n ctl w live h v l ∙ rw none_taken (simp append_assoc)

-- Out of order: where bytes are held back and the kernel takes some of a new message that begins
-- otherwise, the connection does not carry the messages in the order in which they were sent.
pub send_overtakes :
    (x y n : ℕ) (xs ys : List ℕ) (ctl : EpollOperation → Option ℕ) (w : World)
    → may_send w.context.state ≡ true
    → suc n ≤ length (y ∷ ys)
    → IsValid w.context.output
    → unread w.context.output + length (y ∷ ys) ≤ limit
    → contents w.context.output ≡ x ∷ xs
    → x ≢ y
    → pipeline (send (y ∷ ys) (sent (suc n)) ctl w).1 ≢ pipeline w ++ (y ∷ ys)
send_overtakes x y n xs ys ctl w live h v l held ne e =
    let p = pipeline-send (y ∷ ys) (suc n) ctl w live h v l in
    let q : w.stream ++ (y ∷ take n ys ++ (contents w.context.output ++ drop n ys))
        ≡ w.stream ++ (contents w.context.output ++ (y ∷ ys)) =
      sym p ∙ e ∙ append_assoc w.stream (contents w.context.output) (y ∷ ys) in
    let r = append_cancel_left w.stream _ _ q in ne (heads (rw held at r))
  where
    heads : {x y : ℕ} {xs ys : List ℕ} → y ∷ ys ≡ x ∷ xs → x ≡ y
    heads h = cc
