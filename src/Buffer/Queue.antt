-- ===== src/Buffer/Queue.antt =====
-- include/network/Buffer.h against a plain queue of bytes.
use fluent_net.Prelude.{
  ℕ, ◌+◌, ◌≤◌, ◌≡◌, refl, ap, List, [], ◌∷◌, ◌++◌, arith, length, drop, if◌then◌else◌, Bool-cases,
  inl, inr,
}
use fluent_net.Errors.{Result, ok, throw, ◌>>=◌, write_exception}
use fluent_net.Buffer.{
  Buffer, has_read, append, Received, got, read_failed, read_from, Sent, sent, write_failed,
  write_to, is_transient,
}
use fluent_net.Buffer.Contents.{
  IsValid, contents, length-contents, has_read-IsValid, contents-has_read,
}
use fluent_net.Buffer.Io.{
  limit, append-IsValid, contents-append, read_from-IsValid, contents-read_from,
}

-- The calls of a connection on one of its buffers.
pub data Call : Type 0 where
  appends : List ℕ → Call
  receives : Received → Call
  consumes : ℕ → Call
  flushes : Sent → Call

pub step : Buffer → Call → Result Buffer
step b (appends bytes) = ok (append b bytes)
step b (receives got_or_failed) = ok (read_from b got_or_failed)
step b (consumes n) = ok (has_read b n)
step b (flushes answer) = write_to b answer >>= λ p. ok (p.1)

pub run : Buffer → List Call → Result Buffer
run b [] = ok b
run b (c ∷ cs) = step b c >>= λ b'. run b' cs

-- The same calls on a queue of bytes, oldest first.
abbrev pub queue_step : List ℕ → Call → Result (List ℕ)
queue_step q (appends bytes) = ok (q ++ bytes)
queue_step q (receives (got bytes)) = ok (q ++ bytes)
queue_step q (receives (read_failed errno)) = ok q
queue_step q (consumes n) = ok (drop n q)
queue_step q (flushes (sent n)) = ok (drop n q)
queue_step q (flushes (write_failed errno)) =
    if is_transient errno then ok q else throw (write_exception errno)

abbrev pub queue_run : List ℕ → List Call → Result (List ℕ)
queue_run q [] = ok q
queue_run q (c ∷ cs) = queue_step q c >>= λ q'. queue_run q' cs

-- No call takes more than there is, and the bytes held stay within the limit. `write` takes at most
-- the bytes that it is offered.
abbrev pub Fits : List ℕ → Call → Type 0
Fits q (appends bytes) = length q + length bytes ≤ limit
Fits q (receives (got bytes)) = length q + length bytes ≤ limit
Fits q (receives (read_failed errno)) = Unit
Fits q (consumes n) = n ≤ length q
Fits q (flushes (sent n)) = n ≤ length q
Fits q (flushes (write_failed errno)) = Unit

abbrev pub OnOk : Result (List ℕ) → (List ℕ → Type 0) → Type 0
OnOk (ok q) P = P q
OnOk (throw e) P = Unit

-- Every call of the sequence fits what the ones before it leave.
abbrev pub AllFit : List ℕ → List Call → Type 0
AllFit q [] = Unit
AllFit q (c ∷ cs) = Fits q c × OnOk (queue_step q c) (λ q'. AllFit q' cs)

abbrev pub contents_of : Result Buffer → Result (List ℕ)
contents_of (ok b) = ok (contents b)
contents_of (throw e) = throw e

abbrev pub Valid : Result Buffer → Type 0
Valid (ok b) = IsValid b
Valid (throw e) = Unit

step-Valid : (b : Buffer) (c : Call) → IsValid b → Fits (contents b) c → Valid (step b c)
unfolding step write_to
step-Valid b (appends bytes) v h = append-IsValid b bytes v (omega (arith, length-contents b v))
step-Valid b (receives (got bytes)) v h =
    read_from-IsValid b bytes v (omega (arith, length-contents b v))
step-Valid b (receives (read_failed errno)) v h = unfold read_from in v
step-Valid b (consumes n) v h = has_read-IsValid b n v (omega (arith, length-contents b v))
step-Valid b (flushes (sent n)) v h = has_read-IsValid b n v (omega (arith, length-contents b v))
step-Valid b (flushes (write_failed errno)) v h = elim (Bool-cases (is_transient errno)) [
  | inl e ↦ rw (e, step, write_to) (has_read-IsValid b 0 v (omega arith))
  | inr e ↦ rw (e, step, write_to) tt
]

-- One call does to the bytes held what it does to the queue, exceptions included.
pub step_refines :
    (b : Buffer) (c : Call)
    → IsValid b
    → Fits (contents b) c
    → contents_of (step b c) ≡ queue_step (contents b) c
unfolding step write_to
step_refines b (appends bytes) v h =
    ap ok (contents-append b bytes v (omega (arith, length-contents b v)))
step_refines b (receives (got bytes)) v h =
    ap ok (contents-read_from b bytes v (omega (arith, length-contents b v)))
step_refines b (receives (read_failed errno)) v h = unfold read_from in refl
step_refines b (consumes n) v h =
    ap ok (contents-has_read b n v (omega (arith, length-contents b v)))
step_refines b (flushes (sent n)) v h =
    ap ok (contents-has_read b n v (omega (arith, length-contents b v)))
step_refines b (flushes (write_failed errno)) v h = elim (Bool-cases (is_transient errno)) [
  | inl e ↦ rw (e, step, write_to) (ap ok (contents-has_read b 0 v (omega arith)))
  | inr e ↦ rw (e, step, write_to)
]

-- Any sequence of calls, each within bounds, does to the bytes held what it does to the queue.
pub run_refines :
    (cs : List Call) (b : Buffer)
    → IsValid b
    → AllFit (contents b) cs
    → contents_of (run b cs) ≡ queue_run (contents b) cs
unfolding run
run_refines [] b v h = refl
run_refines (c ∷ cs) b v h =
    go (run_refines cs) (step b c) (step_refines b c v h.0) (step-Valid b c v h.0)
  where
    go :
        ((b' : Buffer)
          → IsValid b'
          → AllFit (contents b') cs
          → contents_of (run b' cs) ≡ queue_run (contents b') cs)
        → (r : Result Buffer) → contents_of r ≡ queue_step (contents b) c
        → Valid r
        → contents_of (r >>= λ b'. run b' cs) ≡ (queue_step (contents b) c >>= λ q. queue_run q cs)
    go ih (ok b') e v' = let h' = h.1 in rw (← e) (ih b' v' (rw (← e) at h'))
    go ih (throw x) e v' = rw (← e)
