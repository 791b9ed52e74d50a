-- ===== src/Gather/Delivery.antt =====
-- include/future/Futures.h: what the future that whenNIf makes hands out after one poll.
use fluent_net.Prelude.{ℕ, ◌≡◌, ◌∙◌, ap, Bool, List, length, leb}
use fluent_net.Futures.{ControlBlock}
use fluent_net.Gather.{gather, when_n, sort_results}
use fluent_net.Gather.Scan.{gather_counts}
use fluent_net.Gather.Found.{accepted_from, take_last, answers-accepted_from, sort_results-gather}

module _ {T A : Type 0} (blocks : List (ControlBlock T A)) (cond : T → Bool) where
  -- The first poll of whenNIf, with the sorting of its continuation: it is over exactly if at least `n`
  -- of the futures have a value that the condition accepts, and the results are the last `n` of these futures,
  -- or all if there are fewer, each once with its number and its value, in the order of the futures.
  pub when_n_delivers :
      (n : ℕ) (keys : List ℕ)
      → (let p = gather blocks cond (when_n n keys) in
          (p.0 ≡ leb n (length (accepted_from blocks cond 0 keys)))
          × (sort_results p.1.results ≡ take_last n (accepted_from blocks cond 0 keys)))
  when_n_delivers n keys = (
    (gather_counts blocks cond (when_n n keys)).0
        ∙ ap (leb n) (answers-accepted_from blocks cond keys),
    sort_results-gather blocks cond n keys,
  )
