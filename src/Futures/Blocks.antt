-- ===== src/Futures/Blocks.antt =====
-- include/future: what the states of the control blocks say about the queue and the callbacks.
use fluent_net.Prelude.{
  ℕ, suc, ◌+◌, Bool, true, false, Option, none, some, List, [], ◌∷◌, ◌++◌, ◌≡◌, refl, subst, ◌≢◌,
  inl, inr, set, get_elem?, if◌then◌else◌, leb, ◌==◌, arith, Bool-cases, Option-cases,
  get_elem?-set, get_elem?-bound,
}
use fluent_net.Futures.{
  State, new, ready, posted, done, dead, cancelled, Routine, ControlBlock, Looper, put_block,
  post_request, set_ready, set_block, set_value, set_state, cancel,
}

-- How often a shared state is in the queue.
abbrev pub occurs : ℕ → List ℕ → ℕ
occurs j [] = 0
occurs j (i ∷ q) = if i == j then suc (occurs j q) else occurs j q

-- How often it may be: a request that is posted waits once, one that was cancelled
-- or whose value was taken may still wait.
abbrev pub fits : State → ℕ → Bool
fits posted n = n == 1
fits cancelled n = leb n 1
fits dead n = leb n 1
fits _ n = n == 0

pub fits-suc : (s : State) (n : ℕ) → fits s (suc n) ≡ true → n ≡ 0
fits-suc new n h = ground arith
fits-suc ready n h = ground arith
fits-suc posted n h = ground arith
fits-suc done n h = ground arith
fits-suc dead n h = ground arith
fits-suc cancelled n h = ground arith

pub fits_cancelled : (s : State) (n : ℕ) → fits s n ≡ true → leb n 1 ≡ true
fits_cancelled new n h = ground arith
fits_cancelled ready n h = ground arith
fits_cancelled posted n h = ground arith
fits_cancelled done n h = ground arith
fits_cancelled dead n h = h
fits_cancelled cancelled n h = h

-- A posted request has its callback; a value that is ready waits for none.
abbrev pub is_armed : {T A : Type 0} → State → Option (Routine T A) → Bool
is_armed posted none = false
is_armed ready (some f) = false
is_armed _ _ = true

abbrev pub fits_at : {T A : Type 0} → Option (ControlBlock T A) → ℕ → Bool
fits_at none n = n == 0
fits_at (some b) n = fits b.state n

abbrev pub armed_at : {T A : Type 0} → Option (ControlBlock T A) → Bool
armed_at none = true
armed_at (some b) = is_armed b.state b.callback

pub occurs-append : (j : ℕ) (p q : List ℕ) → occurs j (p ++ q) ≡ occurs j p + occurs j q
occurs-append j [] q = omega arith
occurs-append j (i ∷ p) q = ground (arith, occurs-append j p q)

module _ {T A : Type 0} where
  -- A shared state is in the queue, or being run, once if it is POSTED, at most once if it is
  -- CANCEL or DEAD, and else not at all.
  pub record IsSound (running : List ℕ) (w : Looper T A) : Type 0 where
    pub counted :
        (j : ℕ) → fits_at (get_elem? w.blocks j) (occurs j running + occurs j w.queue) ≡ true
    pub armed : (j : ℕ) → armed_at (get_elem? w.blocks j) ≡ true

  -- Writing the shared state `i`, with a change of the queue that concerns no other.
  pub write-IsSound :
      (running running' queue' : List ℕ) (w : Looper T A) (i : ℕ) (b b' : ControlBlock T A)
      → IsSound running w
      → get_elem? w.blocks i ≡ some b
      → fits b'.state (occurs i running' + occurs i queue') ≡ true
      → ((j : ℕ)
          → j ≢ i
          → occurs j running' + occurs j queue' ≡ occurs j running + occurs j w.queue)
      → is_armed b'.state b'.callback ≡ true
      → IsSound running' (record w { blocks = set w.blocks i b'; queue = queue' })
  write-IsSound running running' queue' w i b b' s e here there ready_here =
      let bound = get_elem?-bound w.blocks i b e in
      record {
        counted = λ j. elim (Bool-cases (j == i)) [
          | inl t ↦
              (let same : j ≡ i = ground arith in
                rw (get_elem?-set w.blocks i j b' bound, t, same) here)
          | inr f ↦
              let other : j ≢ i = ground arith in
              rw (get_elem?-set w.blocks i j b' bound, f) (rw (there j other) (s.counted j))
        ];
        armed = λ j. elim (Bool-cases (j == i)) [
          | inl t ↦ rw (get_elem?-set w.blocks i j b' bound, t) ready_here
          | inr f ↦ rw (get_elem?-set w.blocks i j b' bound, f) (s.armed j)
        ];
      }

  fits_here :
      (running : List ℕ) (w : Looper T A) (i : ℕ) (b : ControlBlock T A)
      → IsSound running w
      → get_elem? w.blocks i ≡ some b
      → fits b.state (occurs i running + occurs i w.queue) ≡ true
  fits_here running w i b s e =
      subst (λ o. fits_at o (occurs i running + occurs i w.queue) ≡ true) e (s.counted i)

  pub put_block-IsSound :
      (running : List ℕ) (w : Looper T A) (i : ℕ) (b b' : ControlBlock T A)
      → IsSound running w
      → get_elem? w.blocks i ≡ some b
      → ((n : ℕ) → fits b.state n ≡ true → fits b'.state n ≡ true)
      → is_armed b'.state b'.callback ≡ true
      → IsSound running (put_block i b' w)
  unfolding put_block
  put_block-IsSound running w i b b' s e fit armed =
      write-IsSound running running w.queue w i b b' s e (fit _ (fits_here running w i b s e))
        (λ j h. refl) armed

  pub post_request-IsSound :
      (running : List ℕ) (w : Looper T A) (i : ℕ) (b b' : ControlBlock T A)
      → IsSound running w
      → get_elem? w.blocks i ≡ some b
      → ((n : ℕ) → fits b.state n ≡ true → n ≡ 0)
      → is_armed posted b'.callback ≡ true
      → IsSound running (post_request i b' w)
  unfolding post_request
  post_request-IsSound running w i b b' s e idle armed =
      let before = idle _ (fits_here running w i b s e) in
      write-IsSound running running (w.queue ++ i ∷ []) w i b (record b' { state = posted }) s e
        (ground (arith, before, occurs-append i w.queue (i ∷ [])))
        (λ j h. ground (arith, occurs-append j w.queue (i ∷ []))) armed

  -- The end of a request, of which the coroutine runs.
  pub finish-IsSound :
      (i : ℕ) (w : Looper T A) → IsSound (i ∷ []) w → IsSound [] (set_state i done w)
  unfolding set_state put_block
  finish-IsSound i w s = elim (Option-cases (get_elem? w.blocks i)) [
    | inl n ↦ let one = s.counted i in absurd (ground arith)
    | inr (b, e) ↦
        let before = fits_here (i ∷ []) w i b s e in
        let last : occurs i w.queue ≡ 0 = fits-suc b.state (occurs i w.queue) (ground arith) in
        rw (set_state, e)
          (write-IsSound (i ∷ []) [] w.queue w i b (record b { state = done }) s e (ground arith)
            (λ j h. ground arith) refl)
  ]

  -- What holds of the result, unless there was an exception.
  abbrev pub UnlessThrown : (Looper T A → Type 0) → Option (Looper T A) → Type 0
  UnlessThrown P none = Unit
  UnlessThrown P (some w) = P w

  pub set_ready-IsSound :
      (running : List ℕ) (w : Looper T A) (i : ℕ) (b : ControlBlock T A) (v : T)
      (c : Option (Routine T A))
      → IsSound running w
      → get_elem? w.blocks i ≡ some b
      → b.state ≡ new
      → IsSound running (set_ready i (record { state = new; value = v; callback = c }) w)
  unfolding set_ready
  set_ready-IsSound running w i b v none s e fresh =
      put_block-IsSound running w i b (record { state = ready; value = v; callback = none }) s e
        (λ n h. subst (λ st. fits st n ≡ true) fresh h) refl
  set_ready-IsSound running w i b v (some f) s e fresh =
      post_request-IsSound running w i b (record { state = ready; value = v; callback = some f }) s
        e (λ n h. let idle = subst (λ st. fits st n ≡ true) fresh h in ground arith) refl

  set_block-IsSound :
      (running : List ℕ) (w : Looper T A) (i : ℕ) (st : State) (old v : T)
      (c : Option (Routine T A)) (s : IsSound running w)
      → get_elem? w.blocks i ≡ some (record { state = st; value = old; callback = c })
      → UnlessThrown
          (IsSound running)
          (set_block i (record { state = st; value = old; callback = c }) v w)
  unfolding set_block
  set_block-IsSound running w i new old v c s e =
      set_ready-IsSound running w i (record { state = new; value = old; callback = c }) v c s e refl
  set_block-IsSound running w i cancelled old v c s e = s
  set_block-IsSound running w i ready old v c s e = tt
  set_block-IsSound running w i posted old v c s e = tt
  set_block-IsSound running w i done old v c s e = tt
  set_block-IsSound running w i dead old v c s e = tt

  pub set_value-IsSound :
      (running : List ℕ) (w : Looper T A) (i : ℕ) (v : T)
      → IsSound running w
      → UnlessThrown (IsSound running) (set_value i v w)
  unfolding set_value
  set_value-IsSound running w i v s = elim (Option-cases (get_elem? w.blocks i)) [
    | inl n ↦ rw (UnlessThrown, set_value, n) s
    | inr (b, e) ↦
        rw (UnlessThrown, set_value, e)
          (set_block-IsSound running w i b.state b.value v b.callback s e)
  ]

  -- `get()`: the value is moved out.
  pub kill-IsSound :
      (running : List ℕ) (w : Looper T A) (i : ℕ)
      → IsSound running w
      → IsSound running (set_state i dead w)
  unfolding set_state
  kill-IsSound running w i s = elim (Option-cases (get_elem? w.blocks i)) [
    | inl n ↦ rw (set_state, n) s
    | inr (b, e) ↦
        rw (set_state, e)
          (put_block-IsSound running w i b (record b { state = dead }) s e (fits_cancelled b.state)
            refl)
  ]

  pub cancel-IsSound :
      (running : List ℕ) (w : Looper T A) (i : ℕ) → IsSound running w → IsSound running (cancel i w)
  unfolding set_state
  cancel-IsSound running w i s = elim (Option-cases (get_elem? w.blocks i)) [
    | inl n ↦ rw (set_state, n) s
    | inr (b, e) ↦
        rw (set_state, e)
          (put_block-IsSound running w i b (record b { state = cancelled }) s e
            (fits_cancelled b.state) refl)
  ]
