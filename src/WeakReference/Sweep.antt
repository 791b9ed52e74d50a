-- ===== src/WeakReference/Sweep.antt =====
-- include/utils/WeakReference.h: what one pass of the collector comes to.
use fluent_net.Prelude.{
  ℕ, zero, suc, ◌+◌, ◌≤◌, ◌<◌, Bool, true, false, ◌≡◌, refl, ◌⊎◌, ◌∙◌, List, inl, inr, leb, ◌==◌,
  arith, Bool-cases, ◌≢◌, length,
}
use mathlib.Core.List.{Perm}
use fluent_net.WeakReference.{
  Slots, fresh, swap, is_reusable_at, do_update, update_open, update_closed, reset_window,
  update_times,
}
use fluent_net.WeakReference.Swap.{get_elem?-swap}
use fluent_net.WeakReference.Bounds.{IsBounded, do_update-IsBounded, update_times-Perm}
use fluent_net.WeakReference.Window.{IsFree, IsHeld, do_update-IsHeld}
use fluent_net.WeakReference.Full.{IsFull, update_times-IsFull}

module _ {S : Type 0} (is_reusable : S → Bool) where
  abbrev pub IsBusy : List S → ℕ → Type 0
  IsBusy xs l = (i : ℕ) → i < l → is_reusable_at is_reusable xs i ≡ false

  -- The pass at the slot `bound`: what is in front of the window is busy.
  record IsAt (p : Slots S) (n : ℕ) : Type 0 where
    bounded : IsBounded p
    held : IsHeld is_reusable p
    busy : IsBusy p.container p.left
    index : p.reusable_index ≡ n

  -- The first `n` slots are sorted: those in front of the index are busy, the others free.
  pub record IsSwept (p : Slots S) (n : ℕ) : Type 0 where
    pub within : p.reusable_index ≤ n
    pub busy : IsBusy p.container p.reusable_index
    pub free : IsFree is_reusable p.container p.reusable_index n

  grow-IsBusy :
      (xs : List S) (l : ℕ)
      → is_reusable_at is_reusable xs l ≡ false
      → IsBusy xs l
      → IsBusy xs (l + 1)
  grow-IsBusy xs l f busy i m = elim (Bool-cases (i == l)) [
    | inl u ↦ (let same : i ≡ l = ground arith in rw same f)
    | inr g ↦ busy i (ground arith)
  ]

  swap-IsBusy :
      (xs : List S) (l b : ℕ)
      → l < b
      → b < length xs
      → is_reusable_at is_reusable xs b ≡ false
      → IsBusy xs l
      → IsBusy (swap xs b l) (l + 1)
  unfolding is_reusable_at
  swap-IsBusy xs l b g h f busy i m = elim (Bool-cases (i == l)) [
    | inl u ↦ ground (arith, get_elem?-swap xs b l i h (omega arith))
    | inr v ↦ ground (arith, get_elem?-swap xs b l i h (omega arith), busy i (ground arith))
  ]

  -- Before the end of the pass a step goes on by one slot, or it has found every slot busy.
  abbrev GoesOn : Slots S → ℕ → ℕ → Type 0
  GoesOn q n m = IsBusy q.container q.left × (q.reusable_index ≡ n) × (q.bound + m ≡ n)

  record IsOver (q : Slots S) (n m : ℕ) : Type 0 where
    full : IsFull is_reusable q
    whole : q.reusable_index ≡ n
    last : m ≡ 0

  closed_step :
      (p : Slots S) (n m : ℕ)
      → IsAt p n
      → p.bound + suc m ≡ n
      → p.left ≡ p.bound
      → GoesOn (update_closed is_reusable p) n m ⊎ IsOver (update_closed is_reusable p) n m
  unfolding update_closed reset_window
  closed_step p n m a e shut = elim (Bool-cases (is_reusable_at is_reusable p.container p.left)) [
    | inl t ↦ rw t (inl (a.busy, a.index, omega (arith, e)))
    | inr f ↦
        let busy = grow-IsBusy p.container p.left f a.busy in
        elim (Bool-cases (p.left + 1 == p.reusable_index)) [
          | inl u ↦
              let whole : p.left + 1 ≡ p.reusable_index = ground arith in
              rw (f, u)
                (inr (record {
                  full = record {
                    positive = ground (arith, a.index, e);
                    closed = refl;
                    started = inl refl;
                    front = λ i h. busy i (omega (arith, h, whole));
                  };
                  whole = a.index;
                  last = omega (arith, e, whole, a.index, shut);
                }))
          | inr g ↦ rw (f, g) (inl (busy, a.index, omega (arith, e)))
        ]
  ]

  open_step :
      (p : Slots S) (n m : ℕ)
      → IsAt p n
      → p.bound + suc m ≡ n
      → p.left < p.bound
      → GoesOn (update_open is_reusable p) n m
  unfolding update_open
  open_step p n m a e opened =
      let more : (p.bound == p.reusable_index) ≡ false = ground (arith, a.index, e) in
      elim (Bool-cases (is_reusable_at is_reusable p.container p.bound)) [
        | inl t ↦ rw (more, t) (a.busy, a.index, omega (arith, e))
        | inr f ↦
            rw (more, f)
              (
                swap-IsBusy p.container p.left p.bound opened
                    (omega (arith, a.bounded.inside, a.index, e)) f a.busy,
                a.index,
                omega (arith, e),
              )
      ]

  advance :
      (p : Slots S) (n m : ℕ)
      → IsAt p n
      → p.bound + suc m ≡ n
      → GoesOn (do_update is_reusable p) n m ⊎ IsOver (do_update is_reusable p) n m
  unfolding do_update
  advance p n m a e = elim (Bool-cases (leb p.bound p.left)) [
    | inl t ↦ rw t (closed_step p n m a e (ground (arith, a.bounded.ordered)))
    | inr f ↦ rw f (inl (open_step p n m a e (ground arith)))
  ]

  -- At the end of the pass the window is merged.
  merge :
      (p : Slots S) (n : ℕ) → n ≢ 0 → IsAt p n → p.bound ≡ n → IsSwept (do_update is_reusable p) n
  unfolding do_update update_open reset_window
  merge p n nz a e =
      let opened : leb p.bound p.left ≡ false = ground (arith, a.bounded.started, a.index, e, nz) in
      let ends : (p.bound == p.reusable_index) ≡ true = ground (arith, a.index, e) in
      rw (opened, ends)
        (record {
          within = omega (arith, a.bounded.ordered, e);
          busy = a.busy;
          free = λ i h k. a.held i h (omega (arith, k, e));
        })

  full-IsSwept : (p : Slots S) (n : ℕ) → IsFull is_reusable p → p.reusable_index ≡ n → IsSwept p n
  full-IsSwept p n w e = record {
    within = omega (arith, e);
    busy = w.front;
    free = λ i h k. absurd (omega (arith, e));
  }

  pass :
      (m : ℕ) (p : Slots S) (n : ℕ)
      → n ≢ 0
      → IsAt p n
      → p.bound + m ≡ n
      → IsSwept (update_times is_reusable (suc m) p) n
  unfolding update_times
  pass zero p n nz a e =
      let nonzero : (p.reusable_index == 0) ≡ false = ground (arith, a.index, nz) in
      rw nonzero (merge p n nz a (omega (arith, e)))
  pass (suc m) p n nz a e =
      let positive : p.reusable_index ≢ 0 = ground (arith, a.index, nz) in
      let nonzero : (p.reusable_index == 0) ≡ false = ground (arith, a.index, nz) in
      let q = do_update is_reusable p in
      elim (advance p n m a e) [
        | inl (busy, index, rest) ↦ rw nonzero (
            pass m q n nz
              (record {
                bounded = do_update-IsBounded is_reusable p positive a.bounded;
                held = do_update-IsHeld is_reusable p a.bounded a.held;
                busy = busy;
                index = index;
              })
              rest)
        | inr o ↦
            let still = update_times-IsFull is_reusable (suc m) q o.full in
            rw nonzero (
              full-IsSwept (update_times is_reusable (suc m) q) n still.full
                (still.same_index ∙ o.whole))
      ]

  -- One pass of the collector: from a reset window, with `n` slots in front of the index that stay
  -- as they are meanwhile, `n + 1` steps put the slots in use in front and the index behind them, and
  -- no slot is lost.
  pub sweep_compacts :
      (slots : List S) (n : ℕ)
      → n ≢ 0
      → n ≤ length slots
      → (let q = update_times is_reusable (suc n) (record (fresh slots) { reusable_index = n }) in
          IsSwept q n × Perm q.container slots)
  sweep_compacts slots n nz h =
      let p : Slots S = record (fresh slots) { reusable_index = n } in
      let bounded : IsBounded p = record {
        ordered = omega arith;
        below = omega arith;
        inside = h;
        started = inl refl;
      } in
      (
        pass n p n nz
            (record {
              bounded = bounded;
              held = λ i a b. absurd (omega arith);
              busy = λ i a. absurd (omega arith);
              index = refl;
            })
            (omega arith),
        update_times-Perm is_reusable (suc n) p bounded,
      )
