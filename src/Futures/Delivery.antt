-- ===== src/Futures/Delivery.antt =====
-- include/future: a value goes through `then` to the next future.
use fluent_net.Prelude.{
  ℕ, suc, Option, none, some, List, [], ◌∷◌, ◌++◌, ◌≡◌, refl, ap, ◌∙◌, set, get_elem?, length,
  get_elem?-end, append_assoc,
}
use fluent_net.Futures.{
  State, ready, posted, done, Routine, then_routine, ControlBlock, put_block, post_request,
  set_ready, set_block, set_value, set_state, call, resume, loop_once, fresh_block, new_promise,
  register, future_routine, make_future, and_then,
}

module _ {S : Type 0} where
  set-end : (xs : List S) (x y : S) → set (xs ++ x ∷ []) (length xs) y ≡ xs ++ y ∷ []
  set-end [] x y = refl
  set-end (z ∷ xs) x y = ap (◌∷◌ z) (set-end xs x y)

  set-end_two : (xs : List S) (x y z : S) → set (xs ++ x ∷ z ∷ []) (length xs) y ≡ xs ++ y ∷ z ∷ []
  set-end_two [] x y z = refl
  set-end_two (v ∷ xs) x y z = ap (◌∷◌ v) (set-end_two xs x y z)

  set-last :
      (xs : List S) (x y z : S) → set (xs ++ x ∷ z ∷ []) (suc (length xs)) y ≡ xs ++ x ∷ y ∷ []
  set-last [] x y z = refl
  set-last (v ∷ xs) x y z = ap (◌∷◌ v) (set-last xs x y z)

  get-end_two : (xs : List S) (x z : S) → get_elem? (xs ++ x ∷ z ∷ []) (length xs) ≡ some x
  get-end_two [] x z = refl
  get-end_two (v ∷ xs) x z = get-end_two xs x z

  length-end : (xs : List S) (x : S) → length (xs ++ x ∷ []) ≡ suc (length xs)
  length-end [] x = refl
  length-end (v ∷ xs) x = ap suc (length-end xs x)

  get-last : (xs : List S) (x z : S) → get_elem? (xs ++ x ∷ z ∷ []) (suc (length xs)) ≡ some z
  get-last [] x z = refl
  get-last (v ∷ xs) x z = get-last xs x z

module _ {T A : Type 0} (xs : List (ControlBlock T A)) (default v : T) where
  abbrev block : State → T → Option (Routine T A) → ControlBlock T A
  block s value callback = record { state = s; value = value; callback = callback }

  made :
      (q : List ℕ) (a : A)
      → make_future default v (record { blocks = xs; queue = q; app = a })
        ≡ some (record { blocks = xs ++ block ready v none ∷ []; queue = q; app = a })
  unfolding make_future new_promise set_value set_block set_ready put_block
  made q a =
      rw
        (
          make_future,
          new_promise,
          set_value,
          get_elem?-end xs (fresh_block default),
          set-end xs (fresh_block default) (block ready v none),
        )
        refl

  attached :
      (f : ℕ → Routine T A) (q : List ℕ) (a : A)
      → future_routine default
          (length xs)
          f
          (record { blocks = xs ++ block ready v none ∷ []; queue = q; app = a })
        ≡ (
          suc (length xs),
          record {
            blocks = xs ++ block posted v (some (f (suc (length xs)))) ∷ fresh_block default ∷ [];
            queue = q ++ length xs ∷ [];
            app = a;
          },
        )
  unfolding future_routine new_promise register post_request
  attached f q a =
      rw
        (
          future_routine,
          get_elem?-end xs (block ready v none),
          new_promise,
          register,
          post_request,
          length-end xs (block ready v none),
          append_assoc xs (block ready v none ∷ []) (fresh_block default ∷ []),
          set-end_two xs (block ready v none) (block posted v (some (f (suc (length xs)))))
              (fresh_block default),
        )
        refl

  served :
      (f : T → A → T × A) (a : A)
      → loop_once (record {
        blocks =
            xs
            ++ block posted v (some (then_routine f (suc (length xs)))) ∷ fresh_block default ∷ [];
        queue = length xs ∷ [];
        app = a;
      })
        ≡ some (record {
          blocks =
              xs
              ++ block done v (some (then_routine f (suc (length xs))))
                ∷ block ready (f v a).0 none
                ∷ [];
          queue = [];
          app = (f v a).1;
        })
  unfolding loop_once resume call set_value set_block set_ready put_block set_state
  served f a =
      let waiting = block posted v (some (then_routine f (suc (length xs)))) in
      rw
        (
          resume,
          get-end_two xs waiting (fresh_block default),
          call,
          set_value,
          get-last xs waiting (fresh_block default),
          set_block,
          set_ready,
          put_block,
          set-last xs waiting (block ready (f v a).0 none) (fresh_block default),
          set_state,
          get-end_two xs waiting (block ready (f v a).0 none),
          put_block,
          set-last xs waiting (block ready (f v a).0 none) (fresh_block default),
          set-end_two xs waiting (block done v (some (then_routine f (suc (length xs)))))
              (block ready (f v a).0 none),
        )
        refl

  -- A value that is made, and a functor that is attached to it, on a looper that is idle: after one
  -- round no coroutine is left, the functor has run once on the value, and the future that `then`
  -- gave is READY with its result.
  pub then_delivers :
      (f : T → A → T × A) (a : A)
      → and_then
          (make_future default v (record { blocks = xs; queue = []; app = a }))
          (λ w. loop_once (future_routine default (length xs) (λ t. then_routine f t) w).1)
        ≡ some (record {
          blocks =
              xs
              ++ block done v (some (then_routine f (suc (length xs))))
                ∷ block ready (f v a).0 none
                ∷ [];
          queue = [];
          app = (f v a).1;
        })
  then_delivers f a =
      ap
        (λ o.
          and_then o
            (λ w. loop_once (future_routine default (length xs) (λ t. then_routine f t) w).1))
        (made [] a)
      ∙ ap (λ p. loop_once p.1) (attached (λ t. then_routine f t) [] a)
      ∙ served f a
