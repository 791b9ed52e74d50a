-- ===== src/Handler/Accounting/Telling.antt =====
-- include/network/Context.h, `updateMultiplexer` behind `send`, and include/handler/Handler.h, where
-- `handleWrite` stops: what epoll was told last.
use fluent_net.Prelude.{
  ℕ, ◌≤◌, ◌<◌, ◌+◌, true, ◌≡◌, refl, sym, ap, ◌∙◌, ◌⊎◌, inl, inr, Option, some, List, [], ◌∷◌, ◌++◌,
  arith, length, drop, take, Bool-cases, Option-cases, ◌==◌,
}
use native.Mathlib.Decide.{ℕ_discrete}
use fluent_net.Errors.{Result, ok, throw, epoll_control_exception}
use fluent_net.Buffer.{Sent, sent, write_failed, is_transient, unread}
use fluent_net.Buffer.Io.{limit}
use fluent_net.Events.{
  MultiplexerPolicy, EventState, new, added, deleted, EpollOperation, ctl_none, ctl_add, ctl_del,
  ctl_mod, event_none, event_write, has, write_event_enabled, update_in, update_event_state,
}
use fluent_net.Events.Masks.{events-update_event_state}
use fluent_net.Context.{
  World, may_send, send, enqueue, request_write, refresh, update, socket_write, go_on, return,
}
use fluent_net.Context.Stream.{took, send_fast, send_slow, send_again, send_fails, send_refused}
use fluent_net.Handler.Accounting.Sending.{IsAccounted, TakesAtMost, send-IsAccounted, queued}

-- The events that epoll has for a descriptor, after one more operation that it took.
abbrev pub tell : ℕ → EpollOperation × ℕ → ℕ
tell old (ctl_none, events) = old
tell old (ctl_add, events) = events
tell old (ctl_mod, events) = events
tell old (ctl_del, events) = event_none

abbrev pub told_from : ℕ → List (EpollOperation × ℕ) → ℕ
told_from old [] = old
told_from old (o ∷ os) = told_from (tell old o) os

told_from-append :
    (old : ℕ) (os : List (EpollOperation × ℕ)) (o : EpollOperation × ℕ)
    → told_from old (os ++ o ∷ []) ≡ tell (told_from old os) o
told_from-append old [] o = refl
told_from-append old (x ∷ os) o = told_from-append (tell old x) os o

-- What epoll has is what `_events` says.
abbrev pub IsTold : World → Type 0
IsTold w = told_from event_none w.operations ≡ w.context.policy.events

-- `epoll_ctl` failed, and the call ended with its exception.
abbrev pub IsRefused : {A : Type 0} → (EpollOperation → Option ℕ) → Result A → Type 0
IsRefused ctl r =
    (operation : EpollOperation) × (errno : ℕ) × (ctl operation ≡ some errno)
    × (r ≡ throw (epoll_control_exception errno))

abbrev pub Tells : {A : Type 0} → (EpollOperation → Option ℕ) → Result A × World → Type 0
Tells ctl (r, w) = IsTold w ⊎ IsRefused ctl r

hint_tells :
    (old : ℕ) (s : EventState) (p : MultiplexerPolicy)
    → tell old ((update_in s p).0, p.events) ≡ p.events
unfolding update_in
hint_tells old new p = refl
hint_tells old deleted p = refl
hint_tells old added p = elim (Bool-cases (p.events == event_none)) [
  | inl y ↦ rw y (ground (arith, y))
  | inr n ↦ rw n refl
]

module _ (ctl : EpollOperation → Option ℕ) where
  refresh-Tells : (w : World) → Tells ctl (refresh ctl w)
  unfolding refresh update update_event_state
  refresh-Tells w =
      let p = w.context.policy in
      let same : (update_in p.event_state p).1.events ≡ p.events = events-update_event_state p in
      let hint = (update_in p.event_state p).0 in
      elim (Option-cases (ctl hint)) [
        | inl taken ↦ rw taken (
            inl (
              told_from-append event_none w.operations (hint, (update_in p.event_state p).1.events)
              ∙ (ap (λ x. tell (told_from event_none w.operations) (hint, x)) same
                  ∙ (hint_tells (told_from event_none w.operations) p.event_state p ∙ sym same))))
        | inr (errno, e) ↦ rw e (inr (hint, errno, e, refl))
      ]

  request_write-Tells : (w : World) → IsTold w → Tells ctl (request_write ctl w)
  unfolding request_write
  request_write-Tells w t = elim (Bool-cases (write_event_enabled w.context.policy)) [
    | inl y ↦ rw y (inl t)
    | inr n ↦ rw n (refresh-Tells _)
  ]

  go_on-Tells :
      {A : Type 0} (token : A) (r : Result (Unit {0}) × World)
      → Tells ctl r
      → Tells ctl (go_on (λ _. return token) r)
  go_on-Tells token (ok u, w) (inl t) = inl t
  go_on-Tells token (ok u, w) (inr (operation, errno, e, thrown)) = absurd (ground (arith, thrown))
  go_on-Tells token (throw x, w) (inl t) = inl t
  go_on-Tells token (throw x, w) (inr (operation, errno, e, thrown)) =
      inr (operation, errno, e, ground (arith, thrown))

  enqueue-Tells : (rest : List ℕ) (w : World) → IsTold w → Tells ctl (enqueue rest ctl w)
  unfolding enqueue
  enqueue-Tells rest w t =
      go_on-Tells w.context.current_index (request_write ctl (queued w rest))
        (request_write-Tells (queued w rest) t)

  send-Tells :
      (bytes : List ℕ) (answer : Sent) (w : World) → IsTold w → Tells ctl (send bytes answer ctl w)
  send-Tells bytes answer w t = elim (Bool-cases (may_send w.context.state)) [
    | inl live ↦ sends answer bytes live
    | inr dead ↦ rw (send_refused bytes answer ctl w dead) (inl t)
  ]
    where
      sends :
          (answer : Sent) (bytes : List ℕ)
          → may_send w.context.state ≡ true
          → Tells ctl (send bytes answer ctl w)
      sends (sent n) bytes live = elim (ℕ_discrete n (length bytes)) [
        | yes e ↦ rw (send_fast bytes n ctl w live e) (inl t)
        | no ne ↦
            rw (send_slow bytes n ctl w live ne)
              (enqueue-Tells (drop n bytes) (took w (take n bytes)) t)
      ]
      sends (write_failed errno) [] live =
          unfold send socket_write in
          rw live
            (elim (Bool-cases (is_transient errno)) [ inl y ↦ rw y (inl t) | inr n ↦ rw n (inl t) ])
      sends (write_failed errno) (x ∷ bytes) live = elim (Bool-cases (is_transient errno)) [
        | inl y ↦
            rw (send_again (x ∷ bytes) errno ctl w live y (omega arith))
              (enqueue-Tells (x ∷ bytes) w t)
        | inr n ↦ rw (send_fails (x ∷ bytes) errno ctl w live n) (inl t)
      ]

  -- What a send leaves: the books are kept, epoll has the events that the context has written down, and
  -- has the write interest while a connection that may send owes bytes; or `epoll_ctl` refused and the
  -- send threw.
  pub record IsKept (r : Result ℕ × World) : Type 0 where
    pub accounted : IsAccounted r.1.context
    pub told : Tells ctl r
    pub asked :
        ((may_send r.1.context.state ≡ true)
          → 0 < unread r.1.context.output
          → has (told_from event_none r.1.operations) event_write ≡ true)
        ⊎ IsRefused ctl r.0

  is_asked :
      (r : Result ℕ × World)
      → IsAccounted r.1.context
      → Tells ctl r
      → (may_send r.1.context.state ≡ true
          → 0 < unread r.1.context.output
          → has (told_from event_none r.1.operations) event_write ≡ true)
        ⊎ IsRefused ctl r.0
  is_asked r a (inl t) = inl (λ live owed. ap (λ x. has x event_write) t ∙ a.wanted live owed)
  is_asked r a (inr refused) = inr refused

  -- If the books are in order, epoll has the events of `_events`, the kernel takes at most what it is
  -- offered and the message fits the buffer, then `send` leaves the books in order, whatever the kernel
  -- answers; and epoll has the events of `_events` again, the write interest among them while a
  -- connection that may send owes bytes, or `epoll_ctl` refused an operation and `send` threw that.
  pub send-IsKept :
      (bytes : List ℕ) (answer : Sent) (w : World)
      → IsAccounted w.context
      → IsTold w
      → TakesAtMost (length bytes) answer
      → unread w.context.output + length bytes ≤ limit
      → IsKept (send bytes answer ctl w)
  send-IsKept bytes answer w a t k h =
      let kept = send-IsAccounted bytes answer ctl w a k h in
      let tells = send-Tells bytes answer w t in
      record {
        accounted = kept;
        told = tells;
        asked = is_asked (send bytes answer ctl w) kept tells;
      }
