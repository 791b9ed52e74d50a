-- ===== src/Pool/Reachable.antt =====
-- include/network/Pool.h: what holds of a pool whatever its connections do between two calls of
-- `emplace`.
use fluent_net.Prelude.{ℕ, ◌≡◌, none, some, set, get_elem?, length-set, replicate}
use fluent_net.WeakReference.Bounds.{IsBounded, fresh-IsBounded}
use fluent_net.Pool.{Connection, Pool, new, prefetch, emplace}
use fluent_net.Pool.Emplace.{IsPlaced, emplace_lem}

-- The pools of a run: `emplace`, and any change of the connection in a slot, as its state moves on
-- and guards come and go.
pub data Reachable : Pool → Type 0 where
  created : Reachable new
  emplaced : (p : Pool) (c : Connection) → Reachable p → Reachable (emplace p c).1
  changed :
      (p : Pool) (i : ℕ) (x y : Connection)
      → get_elem? p.container i ≡ some (some x)
      → Reachable p
      → Reachable (record p { container = set p.container i (some y) })

-- In every pool of a run the indices are in order and in bounds: `left` and `right + 1` do not pass
-- `_reusableIndex`, which does not pass the size, and `left` stays in front of it.
pub Reachable-IsBounded : (p : Pool) → Reachable p → IsBounded p
Reachable-IsBounded p created = fresh-IsBounded (replicate prefetch none)
Reachable-IsBounded p (emplaced q c r) = (emplace_lem q c (Reachable-IsBounded q r)).0
Reachable-IsBounded p (changed q i x y e r) =
    let w = Reachable-IsBounded q r in
    record {
      ordered = w.ordered;
      below = w.below;
      inside = rw (length-set q.container i (some y)) w.inside;
      started = w.started;
    }

-- `emplace` on a pool of a run: the connection is at the place that is handed out; and of the slots,
-- in whatever order the collector has put them, none is given up, or one that is null or whose
-- connection is disconnected with no guard left on it.
pub emplace_keeps :
    (p : Pool) (c : Connection)
    → Reachable p
    → (get_elem? (emplace p c).1.container (emplace p c).0 ≡ some (some c))
      × IsPlaced c p.container (emplace p c).1.container
emplace_keeps p c r =
    let (_, found, placed) = emplace_lem p c (Reachable-IsBounded p r) in (found, placed)
