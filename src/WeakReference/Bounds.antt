-- ===== src/WeakReference/Bounds.antt =====
-- include/utils/WeakReference.h: whatever the slots do between two steps, the window stays in
-- bounds and no slot is lost.
use fluent_net.Prelude.{
  ℕ, zero, suc, ◌+◌, ◌≤◌, ◌<◌, Bool, ◌≡◌, refl, List, ◌⊎◌, inl, inr, leb, ◌==◌, length, arith,
  Bool-cases, ◌≢◌,
}
use mathlib.Core.List.{Perm}
use mathlib.Core.List.Perm
use fluent_net.WeakReference.{
  Slots, fresh, reset_window, is_reusable_at, update_closed, update_open, do_update, update_times,
}
use fluent_net.WeakReference.Swap.{swap-Perm, length-swap}

module _ {S : Type 0} where
  pub record IsBounded (p : Slots S) : Type 0 where
    pub ordered : p.left ≤ p.bound
    pub below : p.bound ≤ p.reusable_index
    pub inside : p.reusable_index ≤ length p.container
    pub started : (p.left ≡ 0) ⊎ (p.left < p.reusable_index)

  pub reset-IsBounded :
      (p : Slots S) → p.reusable_index ≤ length p.container → IsBounded (reset_window p)
  unfolding reset_window
  reset-IsBounded p h = record {
    ordered = omega arith;
    below = omega arith;
    inside = h;
    started = inl refl;
  }

  pub fresh-IsBounded : (slots : List S) → IsBounded (fresh slots)
  fresh-IsBounded slots = record {
    ordered = omega arith;
    below = omega arith;
    inside = omega arith;
    started = inl refl;
  }

module _ {S : Type 0} (is_reusable : S → Bool) where
  update_closed-IsBounded :
      (p : Slots S)
      → p.left ≡ p.bound
      → p.reusable_index ≢ 0
      → IsBounded p
      → IsBounded (update_closed is_reusable p)
  unfolding update_closed
  update_closed-IsBounded p e nz w =
      elim (Bool-cases (is_reusable_at is_reusable p.container p.left)) [
        | inl t ↦ rw t (record {
          ordered = omega (arith, e);
          below = ground (arith, w.started, e, nz, w.below);
          inside = w.inside;
          started = w.started;
        })
        | inr f ↦ elim (Bool-cases (p.left + 1 == p.reusable_index)) [
          | inl u ↦
              rw (f, u)
                (reset-IsBounded (record p { left = p.left + 1; bound = p.bound + 1 }) w.inside)
          | inr g ↦
              rw (f, g)
                (record {
                  ordered = omega (arith, e);
                  below = ground (arith, w.started, e, nz, w.below);
                  inside = w.inside;
                  started = ground (arith, w.started, nz);
                })
        ]
      ]

  update_open-IsBounded :
      (p : Slots S) → p.left < p.bound → IsBounded p → IsBounded (update_open is_reusable p)
  unfolding update_open
  update_open-IsBounded p e w = elim (Bool-cases (p.bound == p.reusable_index)) [
    | inl t ↦ rw t (
        reset-IsBounded (record p { reusable_index = p.left })
          (omega (arith, w.below, w.inside, e)))
    | inr f ↦
        let front : p.bound < p.reusable_index = ground (arith, w.below) in
        elim (Bool-cases (is_reusable_at is_reusable p.container p.bound)) [
          | inl t ↦
              rw (f, t)
                (record {
                  ordered = omega (arith, e);
                  below = omega (arith, front);
                  inside = w.inside;
                  started = w.started;
                })
          | inr g ↦
              rw (f, g)
                (record {
                  ordered = omega (arith, e);
                  below = omega (arith, front);
                  inside = rw (length-swap p.container p.bound p.left) w.inside;
                  started = inr (omega (arith, e, front));
                })
        ]
  ]

  -- One step of the collector, from any state with something in front of the index, keeps the window
  -- in bounds and the slots in it reusable.
  pub do_update-IsBounded :
      (p : Slots S) → p.reusable_index ≢ 0 → IsBounded p → IsBounded (do_update is_reusable p)
  unfolding do_update
  do_update-IsBounded p nz w = elim (Bool-cases (leb p.bound p.left)) [
    | inl t ↦ rw t (update_closed-IsBounded p (ground (arith, w.ordered)) nz w)
    | inr f ↦ rw f (update_open-IsBounded p (ground arith) w)
  ]

  -- No step of the collector loses or doubles a slot.
  pub do_update-Perm :
      (p : Slots S) → IsBounded p → Perm (do_update is_reusable p).container p.container
  unfolding do_update update_closed update_open reset_window
  do_update-Perm p w = elim (Bool-cases (leb p.bound p.left)) [
    | inl t ↦ elim (Bool-cases (is_reusable_at is_reusable p.container p.left)) [
      | inl u ↦ rw (t, u) Perm.rfl
      | inr f ↦ elim (Bool-cases (p.left + 1 == p.reusable_index)) [
        | inl v ↦ rw (t, f, v) Perm.rfl
        | inr g ↦ rw (t, f, g) Perm.rfl
      ]
    ]
    | inr t ↦ elim (Bool-cases (p.bound == p.reusable_index)) [
      | inl u ↦ rw (t, u) Perm.rfl
      | inr u ↦ elim (Bool-cases (is_reusable_at is_reusable p.container p.bound)) [
        | inl v ↦ rw (t, u, v) Perm.rfl
        | inr v ↦
            rw (t, u, v)
              (swap-Perm p.container p.bound p.left (ground arith)
                (ground (arith, w.below, w.inside)))
      ]
    ]
  ]

  pub update_times-IsBounded :
      (n : ℕ) (p : Slots S) → IsBounded p → IsBounded (update_times is_reusable n p)
  unfolding update_times
  update_times-IsBounded zero p w = w
  update_times-IsBounded (suc n) p w = elim (Bool-cases (p.reusable_index == 0)) [
    | inl t ↦ rw t w
    | inr f ↦ rw f (
        update_times-IsBounded n (do_update is_reusable p) (do_update-IsBounded p (ground arith) w))
  ]

  pub update_times-Perm :
      (n : ℕ) (p : Slots S)
      → IsBounded p
      → Perm (update_times is_reusable n p).container p.container
  unfolding update_times
  update_times-Perm zero p w = Perm.rfl
  update_times-Perm (suc n) p w = elim (Bool-cases (p.reusable_index == 0)) [
    | inl t ↦ rw t Perm.rfl
    | inr f ↦ rw f (
        Perm.trans
          (update_times-Perm n (do_update is_reusable p) (do_update-IsBounded p (ground arith) w))
          (do_update-Perm p w))
  ]
