-- ===== src/WeakReference/Window.antt =====
-- include/utils/WeakReference.h: the slots of the window are reusable.
use fluent_net.Prelude.{
  ℕ, ◌+◌, ◌≤◌, ◌<◌, Bool, true, ◌≡◌, List, ◌==◌, length, arith, Bool-cases, inl, inr, leb,
}
use fluent_net.WeakReference.{
  Slots, swap, reset_window, is_reusable_at, update_closed, update_open, do_update,
}
use fluent_net.WeakReference.Swap.{get_elem?-swap}
use fluent_net.WeakReference.Bounds.{IsBounded}

module _ {S : Type 0} (is_reusable : S → Bool) where
  -- Every slot of the range can be used again.
  abbrev pub IsFree : List S → ℕ → ℕ → Type 0
  IsFree xs l b = (i : ℕ) → l ≤ i → i < b → is_reusable_at is_reusable xs i ≡ true

  abbrev pub IsHeld : Slots S → Type 0
  IsHeld p = IsFree p.container p.left p.bound

  swap-IsFree :
      (xs : List S) (l b : ℕ)
      → l < b
      → b < length xs
      → IsFree xs l b
      → IsFree (swap xs b l) (l + 1) (b + 1)
  unfolding is_reusable_at
  swap-IsFree xs l b g h held i m n = elim (Bool-cases (i == b)) [
    | inl t ↦ ground (arith, get_elem?-swap xs b l i h (omega arith), held l (omega arith) g)
    | inr f ↦
        ground (arith, get_elem?-swap xs b l i h (omega arith), held i (omega arith) (ground arith))
  ]

  grow-IsFree :
      (xs : List S) (l b : ℕ)
      → is_reusable_at is_reusable xs b ≡ true
      → IsFree xs l b
      → IsFree xs l (b + 1)
  grow-IsFree xs l b t held i m n = elim (Bool-cases (i == b)) [
    | inl u ↦ (let same : i ≡ b = ground arith in rw same t)
    | inr g ↦ held i m (ground arith)
  ]

  none-IsFree : (xs : List S) (l b : ℕ) → b ≤ l → IsFree xs l b
  none-IsFree xs l b h i m n = absurd (omega arith)

  update_closed-IsHeld : (p : Slots S) → p.left ≡ p.bound → IsHeld (update_closed is_reusable p)
  unfolding update_closed reset_window
  update_closed-IsHeld p e = elim (Bool-cases (is_reusable_at is_reusable p.container p.left)) [
    | inl t ↦ rw t (
        grow-IsFree p.container p.left p.bound (rw e at t)
          (none-IsFree p.container p.left p.bound (omega arith)))
    | inr f ↦ elim (Bool-cases (p.left + 1 == p.reusable_index)) [
      | inl u ↦ rw (f, u) (none-IsFree p.container 0 0 (omega arith))
      | inr g ↦ rw (f, g) (none-IsFree p.container (p.left + 1) (p.bound + 1) (omega (arith, e)))
    ]
  ]

  update_open-IsHeld :
      (p : Slots S) → p.left < p.bound → IsBounded p → IsHeld p → IsHeld (update_open is_reusable p)
  unfolding update_open reset_window
  update_open-IsHeld p e w held = elim (Bool-cases (p.bound == p.reusable_index)) [
    | inl t ↦ rw t (none-IsFree p.container 0 0 (omega arith))
    | inr f ↦ elim (Bool-cases (is_reusable_at is_reusable p.container p.bound)) [
      | inl t ↦ rw (f, t) (grow-IsFree p.container p.left p.bound t held)
      | inr g ↦
          rw (f, g)
            (swap-IsFree p.container p.left p.bound e (ground (arith, w.below, w.inside)) held)
    ]
  ]

  pub do_update-IsHeld : (p : Slots S) → IsBounded p → IsHeld p → IsHeld (do_update is_reusable p)
  unfolding do_update
  do_update-IsHeld p w held = elim (Bool-cases (leb p.bound p.left)) [
    | inl t ↦ rw t (update_closed-IsHeld p (ground (arith, w.ordered)))
    | inr f ↦ rw f (update_open-IsHeld p (ground arith) w held)
  ]
