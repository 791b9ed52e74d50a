-- ===== src/WeakReference.antt =====
-- include/utils/WeakReference.h: which slots of a container can be used again. The class is generic
-- over `isReusable` of a slot; `get(index)` is the container's subscript.
pub mod Swap
pub mod Bounds
pub mod Window
pub mod Sweep
pub mod Full
mod Tests
use fluent_net.Prelude.{
  ℕ, zero, suc, ◌+◌, Bool, true, false, not, Option, none, some, List, if◌then◌else◌, leb, ◌==◌,
  set, get_elem?,
}

-- The container with the members. The window's `right` begins at -1: `bound` is `right + 1`, the
-- index behind the window.
pub record Slots (S : Type 0) : Type 0 where
  pub container : List S
  pub reusable_index : ℕ
  pub left : ℕ
  pub bound : ℕ

abbrev pub fresh : {S : Type 0} → List S → Slots S
fresh slots = record { container = slots; reusable_index = 0; left = 0; bound = 0 }

module _ {S : Type 0} where
  -- `std::swap(get(i), get(j))`
  unfoldable pub swap : List S → ℕ → ℕ → List S
  swap xs i j = elim (get_elem? xs i) [
    | none ↦ xs
    | some a ↦ elim (get_elem? xs j) [ none ↦ xs | some b ↦ set (set xs i b) j a ]
  ]

  unfoldable pub reset_window : Slots S → Slots S
  reset_window p = record p { left = 0; bound = 0 }

module _ {S : Type 0} (is_reusable : S → Bool) where
  -- `isReusable(index)`; no slot lies outside.
  unfoldable pub is_reusable_at : List S → ℕ → Bool
  is_reusable_at xs i = elim (get_elem? xs i) [ none ↦ false | some s ↦ is_reusable s ]

  -- The first half of `doUpdate`: no window is open (`left > right`).
  unfoldable pub update_closed : Slots S → Slots S
  update_closed p =
      if is_reusable_at p.container p.left
      then record p { bound = p.bound + 1 }
      else (let q = record p { left = p.left + 1; bound = p.bound + 1 } in
          if q.left == q.reusable_index then reset_window q else q)

  -- The second half: the window `[left, right]` is open.
  unfoldable pub update_open : Slots S → Slots S
  update_open p =
      if p.bound == p.reusable_index
      then reset_window (record p { reusable_index = p.left })
      else (if is_reusable_at p.container p.bound
          then record p { bound = p.bound + 1 }
          else record p {
            container = swap p.container p.bound p.left;
            left = p.left + 1;
            bound = p.bound + 1;
          })

  unfoldable pub do_update : Slots S → Slots S
  do_update p = if leb p.bound p.left then update_closed p else update_open p

  -- The loop of `updateReusableIndex` with its `break`.
  unfoldable pub update_times : ℕ → Slots S → Slots S
  update_times zero p = p
  update_times (suc n) p =
      let rest = update_times n (do_update p) in if p.reusable_index == 0 then p else rest

  -- `step` is 2.
  unfoldable pub update_reusable_index : Slots S → Slots S
  update_reusable_index p = update_times 2 p
