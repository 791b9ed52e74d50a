-- ===== src/Handler/Tracking/Reports.antt =====
-- include/handler: the handlers of events keep a connection tracked, whatever the kernel answers.
use fluent_net.Prelude.{ℕ, false, ◌≡◌, inl, refl, Option, none, some}
use fluent_net.Errors.{Result, ok, throw}
use fluent_net.Events.{initial, ctl_add}
use fluent_net.Context.{World, M}
use fluent_net.Context.Keeps.{Keeps}
use fluent_net.Handler.Closing.{handle_new_context_lem, handle_new_context_refused}
use fluent_net.Handler.{Handler, Answers, handle_new_context, caught, catch}
use fluent_net.Handler.Tracking.{IsTracked, CallbacksTrack, run_callback-Keeps}

module _ (h : Handler) (callbacks : CallbacksTrack h) where
  caught-Keeps : {m : M (Unit {0})} → Keeps IsTracked m → Keeps IsTracked (caught m)
  unfolding caught
  caught-Keeps {m = m} k = record { keep = λ w t. after (m w) (k.keep w t) }
    where
      after : (r : Result (Unit {0}) × World) → IsTracked r.1 → IsTracked (catch r).1
      after (ok a, v) t = t
      after (throw e, v) t = t

  new_context-IsTracked :
      (answers : Answers) (w : World) (answer : Option ℕ)
      → w.context.policy ≡ initial
      → answers.ctl ctl_add ≡ answer
      → IsTracked (handle_new_context h answers w).1
  new_context-IsTracked answers w none e k = rw (handle_new_context_lem h answers w e k) (
      (caught-Keeps (run_callback-Keeps h.connect_callback callbacks.connects)).keep _
        (inl (false, refl, inl refl)))
  new_context-IsTracked answers w (some errno) e k =
      rw (handle_new_context_refused h answers w errno e k) (inl (false, refl, inl refl))

  -- A new connection is registered and open when `handleNewContext` returns, or already deleted and
  -- DISCONNECTED by its callback.
  pub handle_new_context-IsTracked :
      (answers : Answers) (w : World)
      → w.context.policy ≡ initial
      → IsTracked (handle_new_context h answers w).1
  handle_new_context-IsTracked answers w e =
      new_context-IsTracked answers w (answers.ctl ctl_add) e refl
