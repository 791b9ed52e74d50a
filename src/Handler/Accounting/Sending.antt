-- ===== src/Handler/Accounting/Sending.antt =====
-- include/network/Context.h and include/handler/Handler.h: the books of the output side. What the
-- queue of messages owes is what the output buffer holds, and `_events` has the write interest while
-- anything is owed.
use Prim.Native.Nat.{bit_or}
use fluent_net.Prelude.{
  ℕ, ◌+◌, ◌≤◌, ◌<◌, Bool, true, false, ◌≡◌, refl, sym, ap, subst, ◌∙◌, Option, List, [], ◌∷◌, ◌++◌,
  arith, length, drop, take, sum, sum-append, length-append, length-drop, All, All-append,
  Bool-cases, inl, inr, if◌then◌else◌,
}
use fluent_net.Buffer.{Sent, sent, write_failed, is_transient, append, unread}
use fluent_net.Buffer.Contents.{IsValid, contents, length-contents}
use fluent_net.Buffer.Io.{limit, append-IsValid, contents-append}
use fluent_net.Events.{MultiplexerPolicy, EpollOperation, write_event_enabled, event_write, has}
use fluent_net.Events.Masks.{mask, events-update_event_state}
use fluent_net.Context.{
  Context, World, may_send, send, enqueue, request_write, refresh, update, socket_write, wrap,
}
use native.Mathlib.Decide.{ℕ_discrete}
use fluent_net.Context.Stream.{took, send_fast, send_slow, send_again, send_fails, send_refused}
use fluent_net.Handler.Completion.{IsPositive}

-- `_events` is one of the four unions of interests.
abbrev pub IsMask : MultiplexerPolicy → Type 0
IsMask p = (r : Bool) × (w : Bool) × (p.events ≡ mask r w)

pub record IsAccounted (c : Context) : Type 0 where
  pub valid : IsValid c.output
  pub owed : sum c.provider ≡ unread c.output
  pub positive : All IsPositive c.provider
  pub tokens : wrap (c.completed_index + length c.provider) ≡ c.current_index
  pub masked : IsMask c.policy
  pub wanted : may_send c.state ≡ true → 0 < unread c.output → write_event_enabled c.policy ≡ true

-- The write interest of a mask can be read back.
write_enabled_mask : (r w : Bool) → has (mask r w) event_write ≡ w
write_enabled_mask true true = refl
write_enabled_mask true false = refl
write_enabled_mask false true = refl
write_enabled_mask false false = refl

write_mask : (r w : Bool) → bit_or (mask r w) event_write ≡ mask r true
write_mask true true = refl
write_mask true false = refl
write_mask false true = refl
write_mask false false = refl

-- After `request_write` the interest is there, also if epoll refused it.
record Requested (v w : World) : Type 0 where
  output : v.context.output ≡ w.context.output
  provider : v.context.provider ≡ w.context.provider
  completed : v.context.completed_index ≡ w.context.completed_index
  current : v.context.current_index ≡ w.context.current_index
  masked : IsMask v.context.policy
  wanted : write_event_enabled v.context.policy ≡ true

request_write_events :
    (ctl : EpollOperation → Option ℕ) (w : World)
    → (request_write ctl w).1.context.policy.events ≡ (
        if write_event_enabled w.context.policy
        then w.context.policy.events
        else bit_or w.context.policy.events event_write)
unfolding request_write refresh update
request_write_events ctl w = ground (
  arith,
  events-update_event_state
      (record (w.context.policy) { events = bit_or w.context.policy.events event_write }),
)

request_write-mask :
    (ctl : EpollOperation → Option ℕ) (w : World) (r wr : Bool)
    → w.context.policy.events ≡ mask r wr
    → (request_write ctl w).1.context.policy.events ≡ mask r true
request_write-mask ctl w r wr e =
    request_write_events ctl w
    ∙ subst (λ (x : ℕ). (if has x event_write then x else bit_or x event_write) ≡ mask r true)
        (sym e) (on r wr)
  where
    on :
        (r wr : Bool)
        → (if has (mask r wr) event_write then mask r wr else bit_or (mask r wr) event_write)
          ≡ mask r true
    on true true = refl
    on true false = refl
    on false true = refl
    on false false = refl

pub enabled_of_mask :
    (p : MultiplexerPolicy) (r w : Bool) → p.events ≡ mask r w → write_event_enabled p ≡ w
enabled_of_mask p r w e = subst (λ (x : ℕ). has x event_write ≡ w) (sym e) (write_enabled_mask r w)

request_write-Requested :
    (ctl : EpollOperation → Option ℕ) (w : World)
    → IsMask w.context.policy
    → Requested (request_write ctl w).1 w
request_write-Requested ctl w (r, wr, e) =
    let m = request_write-mask ctl w r wr e in
    record {
      output = unfold request_write refresh update in ground arith;
      provider = unfold request_write refresh update in ground arith;
      completed = unfold request_write refresh update in ground arith;
      current = unfold request_write refresh update in ground arith;
      masked = (r, true, m);
      wanted = enabled_of_mask (request_write ctl w).1.context.policy r true m;
    }

abbrev pub queued : World → List ℕ → World
queued w rest = record w {
  context = record (w.context) {
    output = append w.context.output rest;
    provider = w.context.provider ++ length rest ∷ [];
    current_index = wrap (w.context.current_index + 1);
  };
}

pub enqueue_world :
    (rest : List ℕ) (ctl : EpollOperation → Option ℕ) (w : World)
    → (enqueue rest ctl w).1 ≡ (request_write ctl (queued w rest)).1
unfolding enqueue
enqueue_world rest ctl w = ground arith

enqueue-IsAccounted :
    (rest : List ℕ) (ctl : EpollOperation → Option ℕ) (w : World)
    → IsAccounted w.context
    → 0 < length rest
    → unread w.context.output + length rest ≤ limit
    → IsAccounted (enqueue rest ctl w).1.context
enqueue-IsAccounted rest ctl w a z h =
    let q = request_write-Requested ctl (queued w rest) a.masked in
    let v = append-IsValid w.context.output rest a.valid h in
    let n : unread (append w.context.output rest) ≡ unread w.context.output + length rest = omega (
      arith,
      length-contents (append w.context.output rest) v,
      length-contents w.context.output a.valid,
      ap length (contents-append w.context.output rest a.valid h),
      length-append (contents w.context.output) rest,
    ) in
    rw (enqueue_world rest ctl w) (record {
      valid = rw q.output v;
      owed =
          rw (q.provider, q.output)
            (omega (arith, sum-append w.context.provider (length rest ∷ []), a.owed, n));
      positive =
          rw q.provider
            (All-append IsPositive w.context.provider (length rest ∷ []) a.positive (z, tt));
      tokens =
          rw (q.completed, q.provider, q.current)
            (omega (arith, a.tokens, length-append w.context.provider (length rest ∷ [])));
      masked = q.masked;
      wanted = λ _ _. q.wanted;
    })

-- The kernel takes at most what it is offered.
abbrev pub TakesAtMost : ℕ → Sent → Type 0
TakesAtMost k (sent n) = n ≤ k
TakesAtMost k (write_failed errno) = Unit

sends :
    (bytes : List ℕ) (answer : Sent) (ctl : EpollOperation → Option ℕ) (w : World)
    → may_send w.context.state ≡ true
    → IsAccounted w.context
    → TakesAtMost (length bytes) answer
    → unread w.context.output + length bytes ≤ limit
    → IsAccounted (send bytes answer ctl w).1.context
sends bytes (sent n) ctl w live a t h = elim (ℕ_discrete n (length bytes)) [
  | yes e ↦ rw (send_fast bytes n ctl w live e) a
  | no ne ↦
      let l = length-drop n bytes in
      rw (send_slow bytes n ctl w live ne) (
        enqueue-IsAccounted (drop n bytes) ctl (took w (take n bytes)) a (omega arith)
          (omega arith))
]
sends [] (write_failed errno) ctl w live a t h = unfold send socket_write in ground arith
sends (x ∷ bytes) (write_failed errno) ctl w live a t h = elim (Bool-cases (is_transient errno)) [
  | inl e ↦
      rw (send_again (x ∷ bytes) errno ctl w live e (omega arith))
        (enqueue-IsAccounted (x ∷ bytes) ctl w a (omega arith) h)
  | inr e ↦ rw (send_fails (x ∷ bytes) errno ctl w live e) a
]

-- `send` keeps the books, whatever the kernel answers and whether or not it throws.
pub send-IsAccounted :
    (bytes : List ℕ) (answer : Sent) (ctl : EpollOperation → Option ℕ) (w : World)
    → IsAccounted w.context
    → TakesAtMost (length bytes) answer
    → unread w.context.output + length bytes ≤ limit
    → IsAccounted (send bytes answer ctl w).1.context
send-IsAccounted bytes answer ctl w a t h = elim (Bool-cases (may_send w.context.state)) [
  | inl live ↦ sends bytes answer ctl w live a t h
  | inr dead ↦ rw (send_refused bytes answer ctl w dead) a
]
