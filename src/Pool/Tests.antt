-- ===== src/Pool/Tests.antt =====
-- include/network/Pool.h at concrete pools.
use fluent_net.Prelude.{
  ℕ, zero, suc, ◌<◌, ◌≡◌, refl, true, false, none, some, [], ◌∷◌, ◌++◌, arith, inl, get_elem?,
}
use fluent_net.Context.{disconnected}
use fluent_net.Context.Samples.{idle}
use fluent_net.WeakReference.{is_reusable_at}
use fluent_net.WeakReference.Bounds.{IsBounded}
use fluent_net.Pool.{Connection, Pool, new, emplace, slot_is_reusable, collect, place}
use fluent_net.Pool.Emplace.{IsPlaced}
use fluent_net.Pool.Reachable.{Reachable, created, emplaced, Reachable-IsBounded, emplace_keeps}
use fluent_net.Pool.Pinned.{IsPinned, emplace_all, pinned_grows}

abbrev live : Connection
live = record { bundle = 0; token = 0; world = idle; use_count = none }

abbrev dead : Connection
dead = record live {
  world = record idle { context = record (idle.context) { state = disconnected } };
  use_count = some 1;
}

-- A guard is left on the connection.
abbrev guarded : Connection
guarded = record dead { use_count = some 2 }

slot_is_reusable_tests :
    (slot_is_reusable (some live) ≡ false)
    × (slot_is_reusable (some dead) ≡ true)
    × (slot_is_reusable (some guarded) ≡ false)
unfolding slot_is_reusable
slot_is_reusable_tests = (refl, refl, refl)

abbrev first : Pool
first = (emplace new live).1

first_taken : (emplace new live).0 ≡ 0
unfolding emplace collect place is_reusable_at slot_is_reusable
first_taken = refl

first-Reachable : Reachable first
first-Reachable = emplaced new live created

Reachable-IsBounded_example : IsBounded first
Reachable-IsBounded_example = Reachable-IsBounded first first-Reachable

emplace_keeps_example :
    (get_elem? (emplace first dead).1.container (emplace first dead).0 ≡ some (some dead))
    × IsPlaced dead first.container (emplace first dead).1.container
emplace_keeps_example = emplace_keeps first dead first-Reachable

-- A connection in use in front of the index and one at it; the one behind is dead.
abbrev pinned : Pool
pinned = record {
  container = some live ∷ some live ∷ some dead ∷ [];
  reusable_index = 1;
  left = 0;
  bound = 0;
}

pinned-front : (i : ℕ) → i < 1 → is_reusable_at slot_is_reusable pinned.container i ≡ false
unfolding is_reusable_at slot_is_reusable
pinned-front zero h = refl
pinned-front (suc i) h = absurd (omega arith)

pinned-IsPinned : IsPinned pinned
unfolding is_reusable_at slot_is_reusable
pinned-IsPinned = record {
  full = record {
    positive = λ e. absurd (omega arith);
    closed = refl;
    started = inl refl;
    front = pinned-front;
  };
  inside = omega arith;
  last = refl;
}

live-IsLive : slot_is_reusable (some live) ≡ false
unfolding slot_is_reusable
live-IsLive = refl

pinned_grows_example :
    (emplace_all pinned (live ∷ live ∷ [])).container
    ≡ pinned.container ++ some live ∷ some live ∷ []
pinned_grows_example =
    pinned_grows (live ∷ live ∷ []) pinned pinned-IsPinned (live-IsLive, (live-IsLive, tt))
