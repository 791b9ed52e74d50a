-- ===== src/Futures/Queue.antt =====
-- include/future/Looper.h: the coroutines of the queue take turns.
use fluent_net.Prelude.{
  ℕ, Bool, true, false, Option, none, some, List, [], ◌∷◌, ◌++◌, ◌≡◌, refl, sym, ap, ◌∙◌, inl, inr,
  get_elem?, ◌==◌, Bool-cases, Option-cases, append-nil, append_assoc,
}
use fluent_net.Futures.{
  State, new, ready, posted, done, dead, cancelled, Routine, then_routine, poll_routine,
  poll_count_routine, cancel_if_routine, ControlBlock, Looper, put_block, post_request, set_ready,
  set_block, set_value, set_state, cancel, finish, poll_step, call, run_callback, resume, requeue,
  loop_once,
}

module _ {T A : Type 0} where
  -- The queue is `q` and what has come behind it.
  abbrev pub Extends : List ℕ → Looper T A → Type 0
  Extends q w = (rest : List ℕ) × (w.queue ≡ q ++ rest)

  abbrev pub Unless : (Looper T A → Type 0) → Option (Looper T A) → Type 0
  Unless P none = Unit
  Unless P (some w) = P w

  abbrev Ran : List ℕ → Option (Bool × Looper T A) → Type 0
  Ran q none = Unit
  Ran q (some (b, w)) = Extends q w

  pub same_queue : (w : Looper T A) → Extends w.queue w
  same_queue w = ([], sym (append-nil w.queue))

  set_state-Extends : (i : ℕ) (s : State) (w : Looper T A) → Extends w.queue (set_state i s w)
  unfolding set_state put_block
  set_state-Extends i s w = elim (Option-cases (get_elem? w.blocks i)) [
    | inl n ↦ rw (set_state, n) (same_queue w)
    | inr (b, e) ↦ rw (set_state, e) (same_queue w)
  ]

  set_block-Extends :
      (i : ℕ) (s : State) (old v : T) (c : Option (Routine T A)) (w : Looper T A)
      → Unless (Extends w.queue) (set_block i (record { state = s; value = old; callback = c }) v w)
  unfolding set_block set_ready put_block post_request
  set_block-Extends i new old v none w = same_queue w
  set_block-Extends i new old v (some f) w = (i ∷ [], refl)
  set_block-Extends i ready old v c w = tt
  set_block-Extends i posted old v c w = tt
  set_block-Extends i done old v c w = tt
  set_block-Extends i dead old v c w = tt
  set_block-Extends i cancelled old v c w = same_queue w

  set_value-Extends : (i : ℕ) (v : T) (w : Looper T A) → Unless (Extends w.queue) (set_value i v w)
  unfolding set_value
  set_value-Extends i v w = elim (Option-cases (get_elem? w.blocks i)) [
    | inl n ↦ rw (Unless, set_value, n) (same_queue w)
    | inr (b, e) ↦ rw (Unless, set_value, e) (set_block-Extends i b.state b.value v b.callback w)
  ]

  finish-Ran :
      (i : ℕ) (q : List ℕ) (o : Option (Looper T A)) → Unless (Extends q) o → Ran q (finish i o)
  finish-Ran i q none h = tt
  finish-Ran i q (some w) (rest, e) =
      let (more, f) = set_state-Extends i done w in
      (rest ++ more, f ∙ ap (λ l. l ++ more) e ∙ append_assoc q rest more)

  poll_step-Ran :
      (i : ℕ) (v : T) (t : ℕ) (r : Bool × A) (w : Looper T A) → Ran w.queue (poll_step i v t r w)
  poll_step-Ran i v t (true, a) w =
      finish-Ran i w.queue (set_value t v (record w { app = a }))
        (set_value-Extends t v (record w { app = a }))
  poll_step-Ran i v t (false, a) w = same_queue w

  call-Ran :
      (i : ℕ) (b : ControlBlock T A) (f : Routine T A) (w : Looper T A) → Ran w.queue (call i b f w)
  unfolding call put_block
  call-Ran i b (then_routine f t) w =
      let (r, a) = f b.value w.app in
      finish-Ran i w.queue (set_value t r (record w { app = a }))
        (set_value-Extends t r (record w { app = a }))
  call-Ran i b (poll_routine f t) w = poll_step-Ran i b.value t (f b.value w.app) w
  call-Ran i b (poll_count_routine count f t) w = elim (Bool-cases (count == 0)) [
    | inl z ↦ rw z (finish-Ran i w.queue (set_value t b.value w) (set_value-Extends t b.value w))
    | inr z ↦ rw z (poll_step-Ran i b.value t (f b.value w.app) _)
  ]
  call-Ran i b (cancel_if_routine f t) w =
      let (c, a) = f b.value w.app in
      let w' : Looper T A = record w { app = a } in
      elim (Bool-cases c) [
        | inl y ↦
            rw y (finish-Ran i w.queue (some (cancel t w')) (set_state-Extends t cancelled w'))
        | inr y ↦
            rw y (finish-Ran i w.queue (set_value t b.value w') (set_value-Extends t b.value w'))
      ]

  run_callback-Ran :
      (i : ℕ) (b : ControlBlock T A) (c : Option (Routine T A)) (w : Looper T A)
      → Ran w.queue (run_callback i b c w)
  run_callback-Ran i b none w = tt
  run_callback-Ran i b (some f) w = call-Ran i b f w

  resume-Ran : (i : ℕ) (w : Looper T A) → Ran w.queue (resume i w)
  unfolding resume
  resume-Ran i w = elim (Option-cases (get_elem? w.blocks i)) [
    | inl n ↦ rw (Ran, resume, n) tt
    | inr (b, e) ↦ rw (Ran, resume, e) (run_callback-Ran i b b.callback w)
  ]

  requeue-Extends :
      (i : ℕ) (q : List ℕ) (r : Option (Bool × Looper T A))
      → Ran q r
      → Unless (Extends q) (requeue i r)
  requeue-Extends i q none h = tt
  requeue-Extends i q (some (true, w)) (rest, e) =
      (rest ++ i ∷ [], ap (λ l. l ++ i ∷ []) e ∙ append_assoc q rest (i ∷ []))
  requeue-Extends i q (some (false, w)) h = h

  pub loop_once-Extends :
      (blocks : List (ControlBlock T A)) (i : ℕ) (q : List ℕ) (a : A)
      → Unless (Extends q) (loop_once (record { blocks = blocks; queue = i ∷ q; app = a }))
  unfolding loop_once
  loop_once-Extends blocks i q a =
      let w : Looper T A = record { blocks = blocks; queue = q; app = a } in
      requeue-Extends i q (resume i w) (resume-Ran i w)
