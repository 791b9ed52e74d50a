-- ===== src/Futures/Turns.antt =====
-- include/future/Looper.h, `loop`: the coroutines of the queue take turns.
use fluent_net.Prelude.{
  ℕ, zero, suc, ◌≤◌, Option, none, some, List, [], ◌∷◌, ◌++◌, ◌≡◌, sym, ap, subst, ◌∙◌, length,
  drop, arith, append-nil, append_assoc,
}
use fluent_net.Futures.{Looper, loop_once, repeat, and_then, loop}
use fluent_net.Futures.Unroll.{unroll_4x_repeats}
use fluent_net.Futures.Queue.{Extends, Unless, loop_once-Extends}

module _ {T A : Type 0} where
  Unless-and_then :
      (P Q : Looper T A → Type 0) (o : Option (Looper T A)) (k : Looper T A → Option (Looper T A))
      → Unless P o
      → ((w : Looper T A) → P w → Unless Q (k w))
      → Unless Q (and_then o k)
  Unless-and_then P Q none k h f = tt
  Unless-and_then P Q (some w) k h f = f w h

  turns :
      (n : ℕ) (q rest : List ℕ) (w : Looper T A)
      → n ≤ length q
      → w.queue ≡ q ++ rest
      → Unless (Extends (drop n q)) (repeat n loop_once w)
  turns zero q rest w h e = (rest, e)
  turns (suc n) [] rest w h e = absurd (omega arith)
  turns (suc n) (i ∷ q) rest w h e =
      let w' : Looper T A = record w { queue = i ∷ (q ++ rest) } in
      let same : w' ≡ w = ap (λ l. record w { queue = l }) (sym e) in
      subst (λ v. Unless (Extends (drop n q)) (repeat (suc n) loop_once v)) same
        (Unless-and_then (Extends (q ++ rest)) (Extends (drop n q)) (loop_once w')
          (λ v. repeat n loop_once v) (loop_once-Extends w.blocks i (q ++ rest) w.app)
          (λ v x. turns n q (rest ++ x.0) v (omega arith) (x.1 ∙ append_assoc q rest x.0)))

  -- After `n` rounds, if none has thrown, those that waited behind the first `n` are in front, in their
  -- order, and what the rounds have posted or left running is behind them: the k-th coroutine of a
  -- queue has the k-th turn.
  pub turns_in_order :
      (n : ℕ) (w : Looper T A)
      → n ≤ length w.queue
      → Unless (Extends (drop n w.queue)) (repeat n loop_once w)
  turns_in_order n w h = turns n w.queue [] w h (sym (append-nil w.queue))

  -- `loop` is as many rounds as coroutines wait at its start.
  pub loop_repeats : (w : Looper T A) → loop w ≡ repeat (length w.queue) loop_once w
  unfolding loop
  loop_repeats w = unroll_4x_repeats loop_once (length w.queue) w
