-- ===== src/Handler/Dispatch.antt =====
-- include/handler/HandlerBase.h, `handleEvent`: a pending error.
use Prim.Native.Nat.{bit_or}
use fluent_net.Prelude.{ℕ, true, false, ◌≡◌, refl, ap, some, List, [], ◌∷◌, All}
use fluent_net.Errors.{fluent_exception, Result, throw}
use fluent_net.Events.{has}
use fluent_net.Context.{World}
use fluent_net.Handler.{
  Handler, Answers, handle_event, handle_error, caught, catch, hangs_up, pollerr, pollnval,
}
use fluent_net.Handler.Deferred.{Step, reports, sends, shuts, polls, step, run}

-- POLLERR or POLLNVAL is reported, and not POLLHUP alone.
pub record IsError (revent : ℕ) : Type 0 where
  pub error : has revent (bit_or pollerr pollnval) ≡ true
  pub readable : hangs_up revent ≡ false

handle_event_error :
    (h : Handler) (revent : ℕ) (answers : Answers) (w : World)
    → IsError revent
    → handle_event h revent answers w ≡ (throw fluent_exception, w)
unfolding handle_event handle_error
handle_event_error h revent answers w e = rw (e.readable, e.error) refl

abbrev failed : World → World
failed w = record w { context = record (w.context) { exception = some fluent_exception } }

-- Reports of an error on a connection.
abbrev pub ErrorReport : Step → Type 0
ErrorReport (reports revent answers) = IsError revent
ErrorReport (sends bytes answer ctl) = ⊥
ErrorReport shuts = ⊥
ErrorReport polls = ⊥

step_error : (h : Handler) (x : Step) (w : World) → ErrorReport x → step h w x ≡ failed w
unfolding step caught
step_error h (reports revent answers) w e =
    ap (λ (r : Result (Unit {0}) × World). (catch r).1) (handle_event_error h revent answers w e)
step_error h (sends bytes answer ctl) w e = absurd e
step_error h shuts w e = absurd e
step_error h polls w e = absurd e

-- However often epoll reports an error together with readable data, the connection is neither read
-- nor closed: its state, its interests and its buffers stay, and only the exception is recorded.
pub error_never_closes :
    (h : Handler) (x : Step) (xs : List Step) (w : World)
    → ErrorReport x
    → All ErrorReport xs
    → run h w (x ∷ xs)
      ≡ record w { context = record (w.context) { exception = some fluent_exception } }
unfolding run
error_never_closes h x [] w e es = step_error h x w e
error_never_closes h x (y ∷ ys) w e es =
    rw (step_error h x w e) (error_never_closes h y ys (failed w) es.0 es.1)
