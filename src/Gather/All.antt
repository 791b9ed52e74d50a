-- ===== src/Gather/All.antt =====
-- include/future/FuturesInternal.h, `whenAllTemplate`, for futures of one type: a tuple is a list.
use fluent_net.Prelude.{
  ℕ, Bool, true, false, Option, none, some, List, [], ◌∷◌, ◌≡◌, refl, ap, inl, inr, arith,
  get_elem?, if◌then◌else◌, Bool-cases,
}
use fluent_net.Futures.{ControlBlock}
use fluent_net.Gather.{has_value}

-- What a poll answers for the values that it has found, or not.
abbrev pub over_with : {T : Type 0} → List T → Option (List T) → Bool × List T
over_with res none = (false, res)
over_with res (some vs) = (true, vs)

module _ {T A : Type 0} where
  -- The test of the functor that `forEach` gets; a future always has its shared state.
  abbrev pub passes : Option (ControlBlock T A) → Bool
  passes none = false
  passes (some b) = has_value b.state

  abbrev pub put_value : Option (ControlBlock T A) → List T → List T
  put_value none vs = vs
  put_value (some b) vs = b.value ∷ vs

  -- A value that counts, in front of others.
  abbrev pub and_values : Option (ControlBlock T A) → Option (List T) → Option (List T)
  and_values none vs = none
  and_values (some b) none = none
  and_values (some b) (some vs) = if has_value b.state then some (b.value ∷ vs) else none

module _ {T A : Type 0} (blocks : List (ControlBlock T A)) where
  -- `TupleHelper::forEach`, which goes on while the functor answers true; the value is `pass`.
  unfoldable pub for_each : List ℕ → Bool
  for_each [] = true
  for_each (i ∷ is) = let rest = for_each is in if passes (get_elem? blocks i) then rest else false

  -- `makeResultTuple`
  unfoldable pub make_result_tuple : List ℕ → List T
  make_result_tuple [] = []
  make_result_tuple (i ∷ is) = put_value (get_elem? blocks i) (make_result_tuple is)

  -- The closure that is polled, on the second part of the binder.
  unfoldable pub when_all_poll : List ℕ → List T → Bool × List T
  when_all_poll futures res =
      if for_each futures then (true, make_result_tuple futures) else (false, res)

  -- The values of all futures, if each has one.
  abbrev pub values_of : List ℕ → Option (List T)
  values_of [] = some []
  values_of (i ∷ is) = and_values (get_elem? blocks i) (values_of is)

module _ {T A : Type 0} where
  one_more :
      (b : Option (ControlBlock T A)) (pass : Bool) (made res : List T) (values : Option (List T))
      → (if pass then (true, made) else (false, res)) ≡ over_with res values
      → (if (if passes b then pass else false) then (true, put_value b made) else (false, res))
        ≡ over_with res (and_values b values)
  one_more none pass made res values h = refl
  one_more (some b) true made res none h =
      absurd (ground (arith, ap (λ (x : Bool × List T). x.0) h))
  one_more (some b) true made res (some vs) h =
      let same : made ≡ vs = ap (λ (x : Bool × List T). x.1) h in
      elim (Bool-cases (has_value b.state)) [
        | inl y ↦ rw y (ap (λ ws. (true, b.value ∷ ws)) same)
        | inr n ↦ rw n refl
      ]
  one_more (some b) false made res none h = elim (Bool-cases (has_value b.state)) [
    | inl y ↦ rw y refl
    | inr n ↦ rw n refl
  ]
  one_more (some b) false made res (some vs) h =
      absurd (ground (arith, ap (λ (x : Bool × List T). x.0) h))

module _ {T A : Type 0} (blocks : List (ControlBlock T A)) where
  -- A poll of `whenAll` is over exactly if every future has a value, and then it has the values of all
  -- of them, in the order of the futures.
  pub when_all_poll_exact :
      (futures : List ℕ) (res : List T)
      → when_all_poll blocks futures res ≡ over_with res (values_of blocks futures)
  unfolding when_all_poll for_each make_result_tuple
  when_all_poll_exact [] res = refl
  when_all_poll_exact (i ∷ is) res =
      one_more (get_elem? blocks i) (for_each blocks is) (make_result_tuple blocks is) res
        (values_of blocks is) (when_all_poll_exact is res)
