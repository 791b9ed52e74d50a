-- ===== src/Pool/Pinned.antt =====
-- include/network/Pool.h and include/utils/WeakReference.h: a pool whose front is in use.
use fluent_net.Prelude.{
  ℕ, zero, suc, ◌≤◌, false, ◌≡◌, refl, sym, ap, ◌∙◌, Option, some, List, [], ◌∷◌, ◌++◌, inl, inr,
  ltb, length, arith, Bool-cases, ◌&&◌, All, append_assoc, append-nil, length-append,
}
use fluent_net.WeakReference.{is_reusable_at, update_reusable_index, update_times}
use fluent_net.WeakReference.Full.{IsFull, IsStill, update_times-IsFull}
use fluent_net.Pool.{
  Connection, Pool, gc_threshold, has_index, slot_is_reusable, collect, place, emplace,
}

-- The connections are put into the pool one after the other.
unfoldable pub emplace_all : Pool → List Connection → Pool
emplace_all p [] = p
emplace_all p (c ∷ cs) = emplace_all (emplace p c).1 cs

abbrev pub slots_of : List Connection → List (Option Connection)
slots_of [] = []
slots_of (c ∷ cs) = some c ∷ slots_of cs

abbrev pub IsLive : Connection → Type 0
IsLive c = slot_is_reusable (some c) ≡ false

-- No slot up to the index is reusable (there is none at the index if that is the size).
pub record IsPinned (p : Pool) : Type 0 where
  pub full : IsFull slot_is_reusable p
  pub inside : p.reusable_index ≤ length p.container
  pub last : is_reusable_at slot_is_reusable p.container p.reusable_index ≡ false

still-IsPinned : (p q : Pool) → IsPinned p → IsStill slot_is_reusable p q → IsPinned q
still-IsPinned p q w s = record {
  full = s.full;
  inside = rw (s.same_slots, s.same_index) w.inside;
  last = rw (s.same_slots, s.same_index) w.last;
}

collect-IsPinned :
    (p : Pool) → IsPinned p → IsPinned (collect p) × ((collect p).container ≡ p.container)
unfolding collect update_reusable_index
collect-IsPinned p w = elim (Bool-cases (ltb gc_threshold (length p.container))) [
  | inl t ↦
      let still = update_times-IsFull slot_is_reusable 2 p w.full in
      rw t (still-IsPinned p (update_times slot_is_reusable 2 p) w still, still.same_slots)
  | inr f ↦ rw f (w, refl)
]

append_front :
    (xs : List (Option Connection)) (c : Connection) (i : ℕ)
    → IsLive c
    → i ≤ length xs
    → is_reusable_at slot_is_reusable xs i ≡ false
    → is_reusable_at slot_is_reusable (xs ++ some c ∷ []) i ≡ false
unfolding is_reusable_at
append_front [] c zero live h busy = live
append_front [] c (suc i) live h busy = absurd (omega arith)
append_front (x ∷ xs) c zero live h busy = busy
append_front (x ∷ xs) c (suc i) live h busy = append_front xs c i live (omega arith) busy

emplace-IsPinned :
    (p : Pool) (c : Connection)
    → IsPinned p
    → IsLive c
    → IsPinned (emplace p c).1 × ((emplace p c).1.container ≡ p.container ++ some c ∷ [])
unfolding emplace place
emplace-IsPinned p c w live =
    let (v, same) = collect-IsPinned p w in
    let q = collect p in
    let none_there : (has_index q && is_reusable_at slot_is_reusable q.container q.reusable_index)
        ≡ false =
      ground (arith, v.last) in
    rw none_there (
      record {
        full = record {
          positive = v.full.positive;
          closed = v.full.closed;
          started = v.full.started;
          front = λ i h.
              append_front q.container c i live (omega (arith, h, v.inside)) (v.full.front i h);
        };
        inside = omega (arith, v.inside, length-append q.container (some c ∷ []));
        last = append_front q.container c q.reusable_index live v.inside v.last;
      },
      ap (λ xs. xs ++ some c ∷ []) same,
    )

-- While no slot up to `_reusableIndex` is reusable, every new connection lengthens the container, and
-- whatever is dead behind the index stays there.
pub pinned_grows :
    (cs : List Connection) (p : Pool)
    → IsPinned p
    → All IsLive cs
    → (emplace_all p cs).container ≡ p.container ++ slots_of cs
unfolding emplace_all
pinned_grows [] p w live = sym (append-nil p.container)
pinned_grows (c ∷ cs) p w live =
    let (v, grown) = emplace-IsPinned p c w live.0 in
    pinned_grows cs (emplace p c).1 v live.1
    ∙ ap (λ xs. xs ++ slots_of cs) grown
    ∙ append_assoc p.container (some c ∷ []) (slots_of cs)
