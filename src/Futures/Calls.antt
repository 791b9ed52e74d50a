-- ===== src/Futures/Calls.antt =====
-- include/future: every request runs once, whatever is called in whatever order.
use fluent_net.Prelude.{
  ℕ, ◌+◌, ◌-◌, Bool, true, false, Option, none, some, List, [], ◌∷◌, ◌++◌, ◌≡◌, refl, subst, inl,
  inr, get_elem?, length, ◌==◌, arith, Bool-cases, Option-cases, get_elem?-snoc, get_elem?-none,
}
use fluent_net.Futures.{
  State, new, ready, posted, done, dead, cancelled, Routine, then_routine, poll_routine,
  poll_count_routine, cancel_if_routine, ControlBlock, Looper, set_value, cancel, finish, poll_step,
  call, run_callback, resume, requeue, loop_once, fresh_block, new_promise, register,
}
use fluent_net.Futures.Blocks.{
  IsSound, UnlessThrown, occurs, occurs-append, fits_at, is_armed, armed_at, put_block-IsSound,
  post_request-IsSound, finish-IsSound, set_value-IsSound, cancel-IsSound,
}

armed_some :
    {T A : Type 0} (s : State) (f g : Routine T A)
    → is_armed s (some f) ≡ true
    → is_armed s (some g) ≡ true
armed_some new f g h = refl
armed_some ready f g h = h
armed_some posted f g h = refl
armed_some done f g h = refl
armed_some dead f g h = refl
armed_some cancelled f g h = refl

module _ {T A : Type 0} where
  -- After a coroutine has run: it still is about `i`, or no longer.
  abbrev Ran : ℕ → Option (Bool × Looper T A) → Type 0
  Ran i none = Unit
  Ran i (some (true, w)) = IsSound (i ∷ []) w
  Ran i (some (false, w)) = IsSound [] w

  with_app :
      (running : List ℕ) (w : Looper T A) (a : A)
      → IsSound running w
      → IsSound running (record w { app = a })
  with_app running w a s = record { counted = s.counted; armed = s.armed }

  finish-Ran :
      (i : ℕ) (o : Option (Looper T A)) → UnlessThrown (IsSound (i ∷ [])) o → Ran i (finish i o)
  finish-Ran i none s = tt
  finish-Ran i (some w) s = finish-IsSound i w s

  poll_step-Ran :
      (i : ℕ) (v : T) (t : ℕ) (r : Bool × A) (w : Looper T A)
      → IsSound (i ∷ []) w
      → Ran i (poll_step i v t r w)
  poll_step-Ran i v t (true, a) w s =
      finish-Ran i (set_value t v (record w { app = a }))
        (set_value-IsSound (i ∷ []) (record w { app = a }) t v (with_app (i ∷ []) w a s))
  poll_step-Ran i v t (false, a) w s = with_app (i ∷ []) w a s

  call-Ran :
      (i : ℕ) (b : ControlBlock T A) (f : Routine T A) (w : Looper T A)
      → IsSound (i ∷ []) w
      → get_elem? w.blocks i ≡ some b
      → is_armed b.state (some f) ≡ true
      → Ran i (call i b f w)
  unfolding call
  call-Ran i b (then_routine f t) w s e armed =
      let (r, a) = f b.value w.app in
      finish-Ran i (set_value t r (record w { app = a }))
        (set_value-IsSound (i ∷ []) (record w { app = a }) t r (with_app (i ∷ []) w a s))
  call-Ran i b (poll_routine f t) w s e armed = poll_step-Ran i b.value t (f b.value w.app) w s
  call-Ran i b (poll_count_routine count f t) w s e armed = elim (Bool-cases (count == 0)) [
    | inl z ↦ rw z (finish-Ran i (set_value t b.value w) (set_value-IsSound (i ∷ []) w t b.value s))
    | inr z ↦ rw z (
        poll_step-Ran i b.value t (f b.value w.app) _ (
          put_block-IsSound (i ∷ []) w i b
            (record b { callback = some (poll_count_routine (count - 1) f t) }) s e (λ n h. h)
            (armed_some b.state (poll_count_routine count f t) (poll_count_routine (count - 1) f t)
              armed)))
  ]
  call-Ran i b (cancel_if_routine f t) w s e armed =
      let (c, a) = f b.value w.app in
      let s' = with_app (i ∷ []) w a s in
      elim (Bool-cases c) [
        | inl y ↦ rw y (
            finish-Ran i (some (cancel t (record w { app = a })))
              (cancel-IsSound (i ∷ []) (record w { app = a }) t s'))
        | inr y ↦ rw y (
            finish-Ran i (set_value t b.value (record w { app = a }))
              (set_value-IsSound (i ∷ []) (record w { app = a }) t b.value s'))
      ]

  run_callback-Ran :
      (i : ℕ) (b : ControlBlock T A) (c : Option (Routine T A)) (w : Looper T A)
      → IsSound (i ∷ []) w
      → get_elem? w.blocks i ≡ some b
      → is_armed b.state c ≡ true
      → Ran i (run_callback i b c w)
  run_callback-Ran i b none w s e armed = tt
  run_callback-Ran i b (some f) w s e armed = call-Ran i b f w s e armed

  resume-Ran : (i : ℕ) (w : Looper T A) → IsSound (i ∷ []) w → Ran i (resume i w)
  unfolding resume
  resume-Ran i w s = elim (Option-cases (get_elem? w.blocks i)) [
    | inl n ↦ rw (Ran, resume, n) tt
    | inr (b, e) ↦
        let armed = subst (λ o. armed_at o ≡ true) e (s.armed i) in
        rw (Ran, resume, e) (run_callback-Ran i b b.callback w s e armed)
  ]

  requeue-IsSound :
      (i : ℕ) (r : Option (Bool × Looper T A)) → Ran i r → UnlessThrown (IsSound []) (requeue i r)
  requeue-IsSound i none s = tt
  requeue-IsSound i (some (true, w)) s = record {
    counted = λ j.
        (let e : occurs j (i ∷ []) + occurs j w.queue ≡ 0 + occurs j (w.queue ++ i ∷ []) =
            omega (arith, occurs-append j w.queue (i ∷ [])) in
          subst (λ n. fits_at (get_elem? w.blocks j) n ≡ true) e (s.counted j));
    armed = s.armed;
  }
  requeue-IsSound i (some (false, w)) s = s

  pop-IsSound :
      (blocks : List (ControlBlock T A)) (i : ℕ) (q : List ℕ) (a : A)
      → IsSound [] (record { blocks = blocks; queue = i ∷ q; app = a })
      → IsSound (i ∷ []) (record { blocks = blocks; queue = q; app = a })
  pop-IsSound blocks i q a s = record {
    counted = λ j.
        (let e : 0 + occurs j (i ∷ q) ≡ occurs j (i ∷ []) + occurs j q = ground arith in
          subst (λ n. fits_at (get_elem? blocks j) n ≡ true) e (s.counted j));
    armed = s.armed;
  }

  pub loop_queue-IsSound :
      (blocks : List (ControlBlock T A)) (q : List ℕ) (a : A)
      → IsSound [] (record { blocks = blocks; queue = q; app = a })
      → UnlessThrown (IsSound []) (loop_once (record { blocks = blocks; queue = q; app = a }))
  unfolding loop_once
  loop_queue-IsSound blocks [] a s = s
  loop_queue-IsSound blocks (i ∷ q) a s =
      let w : Looper T A = record { blocks = blocks; queue = q; app = a } in
      requeue-IsSound i (resume i w) (resume-Ran i w (pop-IsSound blocks i q a s))

  pub new_promise-IsSound :
      (default : T) (w : Looper T A) → IsSound [] w → IsSound [] (new_promise default w).1
  unfolding new_promise
  new_promise-IsSound default w s = record {
    counted = λ j. elim (Bool-cases (j == length w.blocks)) [
      | inl t ↦
          let nothing = get_elem?-none w.blocks j (ground arith) in
          let none_due =
            subst (λ o. fits_at o (0 + occurs j w.queue) ≡ true) nothing (s.counted j) in
          rw (get_elem?-snoc w.blocks (fresh_block default) j, t) none_due
      | inr f ↦ rw (get_elem?-snoc w.blocks (fresh_block default) j, f) (s.counted j)
    ];
    armed = λ j. elim (Bool-cases (j == length w.blocks)) [
      | inl t ↦ rw (get_elem?-snoc w.blocks (fresh_block default) j, t) refl
      | inr f ↦ rw (get_elem?-snoc w.blocks (fresh_block default) j, f) (s.armed j)
    ];
  }

  pub register-IsSound :
      (i : ℕ) (st : State) (v : T) (c : Option (Routine T A)) (f : Routine T A) (t : ℕ)
      (w : Looper T A)
      → IsSound [] w
      → get_elem? w.blocks i ≡ some (record { state = st; value = v; callback = c })
      → IsSound [] (register i (record { state = st; value = v; callback = c }) f t w)
  unfolding register
  register-IsSound i new v c f t w s e =
      put_block-IsSound [] w i (record { state = new; value = v; callback = c })
        (record { state = new; value = v; callback = some f }) s e (λ n h. h) refl
  register-IsSound i ready v c f t w s e =
      post_request-IsSound [] w i (record { state = ready; value = v; callback = c })
        (record { state = ready; value = v; callback = some f }) s e (λ n h. ground arith) refl
  register-IsSound i posted v c f t w s e = s
  register-IsSound i done v c f t w s e = s
  register-IsSound i dead v c f t w s e = s
  register-IsSound i cancelled v c f t w s e = cancel-IsSound [] w t s
