-- ===== src/WeakReference/Full.antt =====
-- include/utils/WeakReference.h: the collector where no slot in front of the index is reusable.
use fluent_net.Prelude.{
  ℕ, zero, suc, ◌+◌, ◌<◌, Bool, true, false, ◌≡◌, refl, ◌∙◌, ◌⊎◌, inl, inr, leb, ◌==◌, arith,
  Bool-cases, ◌≢◌,
}
use fluent_net.WeakReference.{
  Slots, is_reusable_at, do_update, update_closed, reset_window, update_times,
}

module _ {S : Type 0} (is_reusable : S → Bool) where
  pub record IsFull (p : Slots S) : Type 0 where
    pub positive : p.reusable_index ≢ 0
    pub closed : p.left ≡ p.bound
    pub started : (p.left ≡ 0) ⊎ (p.left < p.reusable_index)
    pub front : (i : ℕ) → i < p.reusable_index → is_reusable_at is_reusable p.container i ≡ false

  -- Same slots, same index.
  pub record IsStill (p q : Slots S) : Type 0 where
    pub full : IsFull q
    pub same_slots : q.container ≡ p.container
    pub same_index : q.reusable_index ≡ p.reusable_index

  pub do_update-IsFull : (p : Slots S) → IsFull p → IsStill p (do_update is_reusable p)
  unfolding do_update update_closed reset_window
  do_update-IsFull p w =
      let shut : leb p.bound p.left ≡ true = ground (arith, w.closed) in
      let busy = w.front p.left (ground (arith, w.started, w.positive)) in
      elim (Bool-cases (p.left + 1 == p.reusable_index)) [
        | inl t ↦
            rw (shut, busy, t)
              (record {
                full = record {
                  positive = w.positive;
                  closed = refl;
                  started = inl refl;
                  front = w.front;
                };
                same_slots = refl;
                same_index = refl;
              })
        | inr f ↦
            rw (shut, busy, f)
              (record {
                full = record {
                  positive = w.positive;
                  closed = omega (arith, w.closed);
                  started = ground (arith, w.started, w.positive);
                  front = w.front;
                };
                same_slots = refl;
                same_index = refl;
              })
      ]

  pub update_times-IsFull :
      (n : ℕ) (p : Slots S) → IsFull p → IsStill p (update_times is_reusable n p)
  unfolding update_times
  update_times-IsFull zero p w = record { full = w; same_slots = refl; same_index = refl }
  update_times-IsFull (suc n) p w =
      let nonzero : (p.reusable_index == 0) ≡ false = ground (arith, w.positive) in
      let once = do_update-IsFull p w in
      let later = update_times-IsFull n (do_update is_reusable p) once.full in
      rw nonzero (record {
        full = later.full;
        same_slots = later.same_slots ∙ once.same_slots;
        same_index = later.same_index ∙ once.same_index;
      })
