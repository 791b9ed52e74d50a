-- ===== src/Futures.antt =====
-- include/future: the shared states of futures, the requests on them, and the looper. A coroutine of
-- the queue runs one request, and where it has yielded it goes on at the head of the loop of `poll`,
-- so the queue holds the shared state that each coroutine is about. `A` is the state of the
-- application, which the functors may read and change; `T` is the type of the values.
pub mod Blocks
pub mod Calls
pub mod Once
pub mod Turns
pub mod Delivery
pub mod Queue
pub mod Unroll
pub mod Waits
mod Tests
use Prim.Native.Nat.{bit_and}
use fluent_net.Prelude.{
  ℕ, zero, suc, ◌+◌, ◌-◌, ◌/◌, Bool, true, false, not, Option, none, some, List, [], ◌∷◌, ◌++◌, set,
  get_elem?, length, if◌then◌else◌, ltb, ◌==◌,
}

pub data State : Type 0 where
  new ready posted done dead cancelled : State

-- What `futureRoutine` stores in `_then`: the functor with the promise, by the index of its shared
-- state.
pub data Routine (T A : Type 0) : Type 0 where
  then_routine : (T → A → T × A) → ℕ → Routine T A
  poll_routine : (T → A → Bool × A) → ℕ → Routine T A
  poll_count_routine : ℕ → (T → A → Bool × A) → ℕ → Routine T A
  cancel_if_routine : (T → A → Bool × A) → ℕ → Routine T A

pub record ControlBlock (T A : Type 0) : Type 0 where
  pub state : State
  pub value : T
  pub callback : Option (Routine T A)

pub record Looper (T A : Type 0) : Type 0 where
  pub blocks : List (ControlBlock T A)
  pub queue : List ℕ
  pub app : A

module _ {T A : Type 0} where
  unfoldable pub put_block : ℕ → ControlBlock T A → Looper T A → Looper T A
  put_block i b w = record w { blocks = set w.blocks i b }

  -- `postRequest` of a shared state that is at hand
  unfoldable pub post_request : ℕ → ControlBlock T A → Looper T A → Looper T A
  post_request i b w = record w {
    blocks = set w.blocks i (record b { state = posted });
    queue = w.queue ++ i ∷ [];
  }

  unfoldable pub set_ready : ℕ → ControlBlock T A → Looper T A → Looper T A
  set_ready i b w = elim b.callback [
    | none ↦ put_block i (record b { state = ready }) w
    | some f ↦ post_request i (record b { state = ready }) w
  ]

  -- `setValue`; none is its exception, "promise can only set once.".
  unfoldable pub set_block : ℕ → ControlBlock T A → T → Looper T A → Option (Looper T A)
  set_block i b v w = elim b.state [
    | new ↦ some (set_ready i (record b { value = v }) w)
    | cancelled ↦ some w
    | _ ↦ none
  ]

  -- A promise always has its shared state.
  unfoldable pub set_value : ℕ → T → Looper T A → Option (Looper T A)
  set_value i v w = elim (get_elem? w.blocks i) [ none ↦ some w | some b ↦ set_block i b v w ]

  unfoldable pub set_state : ℕ → State → Looper T A → Looper T A
  set_state i s w = elim (get_elem? w.blocks i) [
    | none ↦ w
    | some b ↦ put_block i (record b { state = s }) w
  ]

  abbrev pub cancel : ℕ → Looper T A → Looper T A
  cancel i w = set_state i cancelled w

  -- `get()`
  unfoldable pub get_value : ℕ → Looper T A → Option T × Looper T A
  get_value i w =
      (elim (get_elem? w.blocks i) [ none ↦ none | some b ↦ some b.value ], set_state i dead w)

  -- The end of a request.
  abbrev pub finish : ℕ → Option (Looper T A) → Option (Bool × Looper T A)
  finish i none = none
  finish i (some w) = some (false, set_state i done w)

  -- `while(!f(value)) yield();` and then `setValue`, up to the next yield.
  abbrev pub poll_step : ℕ → T → ℕ → Bool × A → Looper T A → Option (Bool × Looper T A)
  poll_step i v t (true, a) w = finish i (set_value t v (record w { app = a }))
  poll_step i v t (false, a) w = some (true, record w { app = a })

  -- `_then(value)`, up to its end or its next yield: whether the coroutine still runs, and what is
  -- there then. The count of `poll` lives in the closure.
  unfoldable pub call : ℕ → ControlBlock T A → Routine T A → Looper T A → Option (Bool × Looper T A)
  call i b (then_routine f t) w =
      let (r, a) = f b.value w.app in finish i (set_value t r (record w { app = a }))
  call i b (poll_routine f t) w = poll_step i b.value t (f b.value w.app) w
  call i b (poll_count_routine count f t) w =
      if count == 0
      then finish i (set_value t b.value w)
      else poll_step i b.value t (f b.value w.app)
          (put_block i (record b { callback = some (poll_count_routine (count - 1) f t) }) w)
  call i b (cancel_if_routine f t) w =
      let (c, a) = f b.value w.app in
      let w' = record w { app = a } in
      if c then finish i (some (cancel t w')) else finish i (set_value t b.value w')

  -- Calling an empty function is an exception too.
  abbrev pub run_callback :
      ℕ → ControlBlock T A → Option (Routine T A) → Looper T A → Option (Bool × Looper T A)
  run_callback i b none w = none
  run_callback i b (some f) w = call i b f w

  -- `co->resume()`
  unfoldable pub resume : ℕ → Looper T A → Option (Bool × Looper T A)
  resume i w = elim (get_elem? w.blocks i) [ none ↦ none | some b ↦ run_callback i b b.callback w ]

  -- `if(co->running()) _mq.emplace(co)`
  abbrev pub requeue : ℕ → Option (Bool × Looper T A) → Option (Looper T A)
  requeue i none = none
  requeue i (some (true, w)) = some (record w { queue = w.queue ++ i ∷ [] })
  requeue i (some (false, w)) = some w

  -- `loopOnce` with `loopOnceUnchecked` in it
  unfoldable pub loop_once : Looper T A → Option (Looper T A)
  loop_once w = elim w.queue [ [] ↦ some w | i ∷ q ↦ requeue i (resume i (record w { queue = q })) ]

  abbrev pub fresh_block : T → ControlBlock T A
  fresh_block v = record { state = new; value = v; callback = none }

  -- `Promise(looper)`; the value is the default of the type.
  unfoldable pub new_promise : T → Looper T A → ℕ × Looper T A
  new_promise default w =
      (length w.blocks, record w { blocks = w.blocks ++ fresh_block default ∷ [] })

  -- The branches of `futureRoutine` on the state of the future, for the promise `t`.
  unfoldable pub register : ℕ → ControlBlock T A → Routine T A → ℕ → Looper T A → Looper T A
  register i b f t w = elim b.state [
    | new ↦ put_block i (record b { callback = some f }) w
    | ready ↦ post_request i (record b { callback = some f }) w
    | cancelled ↦ cancel t w
    | _ ↦ w
  ]

  unfoldable pub future_routine : T → ℕ → (ℕ → Routine T A) → Looper T A → ℕ × Looper T A
  future_routine default i f w =
      let (t, w') = new_promise default w in
      elim (get_elem? w.blocks i) [ none ↦ (t, w') | some b ↦ (t, register i b (f t) t w') ]

  -- `makeFuture`
  unfoldable pub make_future : T → T → Looper T A → Option (Looper T A)
  make_future default v w = let (t, w') = new_promise default w in set_value t v w'

-- One action and then the other, unless the first throws.
abbrev pub and_then : {W : Type 0} → Option W → (W → Option W) → Option W
and_then none k = none
and_then (some w) k = k w

-- `action` again and again, until one throws
abbrev pub repeat : {W : Type 0} → ℕ → (W → Option W) → W → Option W
repeat zero action w = some w
repeat (suc n) action w = and_then (action w) (λ v. repeat n action v)

-- The macro SKYWIND3000_CPU_LOOP_UNROLL_4X with CATURRA_2X and CATURRA_4X.
unfoldable pub unroll_4x : {W : Type 0} → ℕ → (W → Option W) → W → Option W
unroll_4x {W} width action w =
    let action_2x : W → Option W = λ v. and_then (action v) action in
    let action_4x : W → Option W = λ v. and_then (action_2x v) action_2x in
    and_then
      (and_then (repeat (width / 4) action_4x w)
        (λ v. if ltb 0 (bit_and width 2) then action_2x v else some v))
      (λ v. if ltb 0 (bit_and width 1) then action v else some v)

-- `loop()`: as many rounds as coroutines wait at its start.
unfoldable pub loop : {T A : Type 0} → Looper T A → Option (Looper T A)
loop w = unroll_4x (length w.queue) loop_once w
