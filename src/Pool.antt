-- ===== src/Pool.antt =====
-- include/network/Pool.h: where the connections live. A slot is a `unique_ptr`, null or owning a
-- connection, so `swap` moves no context. The base class is the collector of WeakReference.
pub mod Emplace
pub mod Pinned
pub mod Reachable
mod Tests
use fluent_net.Prelude.{
  ℕ, zero, suc, ◌+◌, Bool, true, false, not, ◌&&◌, Option, none, some, List, [], ◌∷◌, ◌++◌,
  if◌then◌else◌, ltb, leb, ◌==◌, set, length, replicate,
}
use fluent_net.Context.{World, is_disconnected}
use fluent_net.WeakReference.{Slots, fresh, is_reusable_at, update_reusable_index}

-- `BundleValueType` with its address, which is what a `Bundle` is and what epoll hands back, and with
-- the use count of the context's `_lifecycle`, if it has one. The context comes with what the calls
-- for it did to the kernel.
pub record Connection : Type 0 where
  pub bundle : ℕ
  pub token : ℕ
  pub world : World
  pub use_count : Option ℕ

abbrev pub Pool : Type 0
Pool = Slots (Option Connection)

-- `GC_THRESHOLD` and `PREFETCH`
abbrev pub gc_threshold : ℕ
gc_threshold = 16

abbrev pub prefetch : ℕ
prefetch = 16

abbrev pub new : Pool
new = fresh (replicate prefetch none)

-- "lifecycle disabled or no strong guard"
abbrev pub is_unguarded : Option ℕ → Bool
is_unguarded none = true
is_unguarded (some count) = leb count 1

-- `isReusable(index)` of the slot there
unfoldable pub slot_is_reusable : Option Connection → Bool
slot_is_reusable none = true
slot_is_reusable (some c) = is_disconnected c.world.context.state && is_unguarded c.use_count

-- `isReusable()`
abbrev pub has_index : Pool → Bool
has_index p = not (p.reusable_index == length p.container)

unfoldable pub collect : Pool → Pool
collect p =
    if ltb gc_threshold (length p.container) then update_reusable_index slot_is_reusable p else p

-- The tail of `emplace`: the slot taken and the pool.
unfoldable pub place : Pool → Connection → ℕ × Pool
place p c =
    if has_index p && is_reusable_at slot_is_reusable p.container p.reusable_index
    then (
      p.reusable_index,
      record p {
        container = set p.container p.reusable_index (some c);
        reusable_index = p.reusable_index + 1;
      },
    )
    else (length p.container, record p { container = p.container ++ some c ∷ [] })

unfoldable pub emplace : Pool → Connection → ℕ × Pool
emplace p c = place (collect p) c
