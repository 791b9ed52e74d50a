-- ===== src/Futures/Once.antt =====
-- include/future: every request runs once, whatever is called in whatever order.
use fluent_net.Prelude.{
  ℕ, ◌≡◌, refl, false, Option, none, some, List, [], ◌∷◌, inl, inr, get_elem?, length, ◌==◌, arith,
  Option-cases, get_elem?-bound, get_elem?-snoc,
}
use fluent_net.Futures.{
  Routine, Looper, set_value, cancel, loop_once, fresh_block, new_promise, future_routine,
  make_future, get_value, and_then,
}
use fluent_net.Futures.Blocks.{
  IsSound, UnlessThrown, set_value-IsSound, cancel-IsSound, kill-IsSound,
}
use fluent_net.Futures.Calls.{loop_queue-IsSound, new_promise-IsSound, register-IsSound}

-- What the application and the looper do with futures, in any order.
pub data Call (T A : Type 0) : Type 0 where
  new_promise_call : T → Call T A
  set_value_call : ℕ → T → Call T A
  cancel_call : ℕ → Call T A
  future_routine_call : T → ℕ → (ℕ → Routine T A) → Call T A
  make_future_call : T → T → Call T A
  get_call : ℕ → Call T A
  loop_once_call : Call T A

module _ {T A : Type 0} where
  unfoldable pub perform : Call T A → Looper T A → Option (Looper T A)
  perform (new_promise_call default) w = some (new_promise default w).1
  perform (set_value_call i v) w = set_value i v w
  perform (cancel_call i) w = some (cancel i w)
  perform (future_routine_call default i f) w = some (future_routine default i f w).1
  perform (make_future_call default v) w = make_future default v w
  perform (get_call i) w = some (get_value i w).1
  perform loop_once_call w = loop_once w

  unfoldable pub perform_all : List (Call T A) → Looper T A → Option (Looper T A)
  perform_all [] w = some w
  perform_all (c ∷ cs) w = and_then (perform c w) (λ v. perform_all cs v)

  abbrev pub start : A → Looper T A
  start a = record { blocks = []; queue = []; app = a }

  future_routine-IsSound :
      (default : T) (i : ℕ) (f : ℕ → Routine T A) (w : Looper T A)
      → IsSound [] w
      → IsSound [] (future_routine default i f w).1
  unfolding future_routine new_promise
  future_routine-IsSound default i f w s =
      let s' = new_promise-IsSound default w s in
      elim (Option-cases (get_elem? w.blocks i)) [
        | inl n ↦ rw (future_routine, n) s'
        | inr (b, e) ↦
            let old : (i == length w.blocks) ≡ false =
              ground (arith, get_elem?-bound w.blocks i b e) in
            let e' : get_elem? (new_promise default w).1.blocks i ≡ some b =
              rw (new_promise, get_elem?-snoc w.blocks (fresh_block default) i, old) e in
            rw (future_routine, e)
              (register-IsSound i b.state b.value b.callback (f (length w.blocks)) (length w.blocks)
                (new_promise default w).1 s' e')
      ]

  perform-IsSound :
      (c : Call T A) (w : Looper T A) → IsSound [] w → UnlessThrown (IsSound []) (perform c w)
  unfolding perform make_future get_value
  perform-IsSound (new_promise_call default) w s = new_promise-IsSound default w s
  perform-IsSound (set_value_call i v) w s = set_value-IsSound [] w i v s
  perform-IsSound (cancel_call i) w s = cancel-IsSound [] w i s
  perform-IsSound (future_routine_call default i f) w s = future_routine-IsSound default i f w s
  perform-IsSound (make_future_call default v) w s =
      let (t, w') = new_promise default w in
      set_value-IsSound [] w' t v (new_promise-IsSound default w s)
  perform-IsSound (get_call i) w s = kill-IsSound [] w i s
  perform-IsSound loop_once_call w s = loop_queue-IsSound w.blocks w.queue w.app s

  and_then-IsSound :
      (o : Option (Looper T A)) (k : Looper T A → Option (Looper T A))
      → UnlessThrown (IsSound []) o
      → ((w : Looper T A) → IsSound [] w → UnlessThrown (IsSound []) (k w))
      → UnlessThrown (IsSound []) (and_then o k)
  and_then-IsSound none k s h = tt
  and_then-IsSound (some w) k s h = h w s

  perform_all-IsSound :
      (cs : List (Call T A)) (w : Looper T A)
      → IsSound [] w
      → UnlessThrown (IsSound []) (perform_all cs w)
  unfolding perform_all
  perform_all-IsSound [] w s = s
  perform_all-IsSound (c ∷ cs) w s =
      and_then-IsSound (perform c w) (λ v. perform_all cs v) (perform-IsSound c w s)
        (λ v h. perform_all-IsSound cs v h)

  -- After any calls, if none has thrown: a shared state is in the looper's queue exactly once if it is
  -- POSTED, at most once if it is CANCEL or DEAD, and never if it is NEW, READY or DONE, so that no
  -- request runs twice; what is POSTED has a callback, and what is READY has none left to run.
  pub requests_once :
      (cs : List (Call T A)) (a : A) → UnlessThrown (IsSound []) (perform_all cs (start a))
  requests_once cs a =
      perform_all-IsSound cs (start a) (record { counted = λ j. refl; armed = λ j. refl })
