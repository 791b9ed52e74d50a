-- ===== src/Pool/Emplace.antt =====
-- include/network/Pool.h, `emplace`: what it puts where, and what it gives up for that.
use mathlib.Core.Option.{some-injective}
use fluent_net.Prelude.{
  get_elem?-end, get_elem?-bound, get_elem?-set, zero, suc, ℕ, true, ◌≡◌, Option, some, List, [],
  ◌∷◌, ◌++◌, inl, inr, ltb, set, get_elem?, length, arith, Bool-cases, Option-cases, ◌&&◌,
  length-set, length-append,
}
use mathlib.Core.List.{Perm}
use mathlib.Core.List.Perm
use fluent_net.WeakReference.{is_reusable_at, update_reusable_index}
use fluent_net.WeakReference.Bounds.{IsBounded, update_times-IsBounded, update_times-Perm}
use fluent_net.Pool.{
  Connection, Pool, has_index, gc_threshold, slot_is_reusable, collect, place, emplace,
}

-- The new connection is one more slot, or it stands for a slot that could be used again.
pub data IsPlaced (c : Connection) (before after : List (Option Connection)) : Type 0 where
  added : Perm after (some c ∷ before) → IsPlaced c before after
  replaced :
      (old : Option Connection) (rest : List (Option Connection))
      → slot_is_reusable old ≡ true
      → Perm before (old ∷ rest)
      → Perm after (some c ∷ rest)
      → IsPlaced c before after

collect-IsBounded : (p : Pool) → IsBounded p → IsBounded (collect p)
unfolding collect update_reusable_index
collect-IsBounded p w = elim (Bool-cases (ltb gc_threshold (length p.container))) [
  | inl t ↦ rw t (update_times-IsBounded slot_is_reusable 2 p w)
  | inr f ↦ rw f w
]

collect-Perm : (p : Pool) → IsBounded p → Perm (collect p).container p.container
unfolding collect update_reusable_index
collect-Perm p w = elim (Bool-cases (ltb gc_threshold (length p.container))) [
  | inl t ↦ rw t (update_times-Perm slot_is_reusable 2 p w)
  | inr f ↦ rw f Perm.rfl
]

module _ {S : Type 0} where
  -- A slot written is a slot given up.
  pub split_at :
      (xs : List S) (i : ℕ) (x old : S)
      → get_elem? xs i ≡ some old
      → (rest : List S) × Perm xs (old ∷ rest) × Perm (set xs i x) (x ∷ rest)
  split_at [] i x old e = absurd (ground arith)
  split_at (z ∷ zs) zero x old e = (zs, rw (some-injective z old e) Perm.rfl, Perm.rfl)
  split_at (z ∷ zs) (suc i) x old e =
      let (rest, before, after) = split_at zs i x old e in
      (
        z ∷ rest,
        Perm.trans (Perm.cons z before) (Perm.swap old z rest),
        Perm.trans (Perm.cons z after) (Perm.swap x z rest),
      )

  end-Perm : (xs : List S) (x : S) → Perm (xs ++ x ∷ []) (x ∷ xs)
  end-Perm [] x = Perm.rfl
  end-Perm (y ∷ xs) x = Perm.trans (Perm.cons y (end-Perm xs x)) (Perm.swap x y xs)

reusable_slot :
    (xs : List (Option Connection)) (i : ℕ)
    → is_reusable_at slot_is_reusable xs i ≡ true
    → (old : Option Connection) × (get_elem? xs i ≡ some old) × (slot_is_reusable old ≡ true)
unfolding is_reusable_at
reusable_slot xs i t = elim (Option-cases (get_elem? xs i)) [
  | inl n ↦ absurd (ground arith)
  | inr (old, e) ↦ (old, e, rw (is_reusable_at, e) at t)
]

replace-IsPlaced :
    (xs : List (Option Connection)) (i : ℕ) (c : Connection)
    → is_reusable_at slot_is_reusable xs i ≡ true
    → IsPlaced c xs (set xs i (some c))
replace-IsPlaced xs i c t =
    let (old, e, free) = reusable_slot xs i t in
    let (rest, before, after) = split_at xs i (some c) old e in replaced old rest free before after

place_lem :
    (p : Pool) (c : Connection)
    → IsBounded p
    → IsBounded (place p c).1
      × (get_elem? (place p c).1.container (place p c).0 ≡ some (some c))
      × IsPlaced c p.container (place p c).1.container
unfolding place
place_lem p c w =
    elim (Bool-cases
      (has_index p && is_reusable_at slot_is_reusable p.container p.reusable_index)) [
        | inl t ↦
            let free : is_reusable_at slot_is_reusable p.container p.reusable_index ≡ true =
              ground arith in
            let (old, e, _) = reusable_slot p.container p.reusable_index free in
            let bound = get_elem?-bound p.container p.reusable_index old e in
            rw t (
              record {
                ordered = w.ordered;
                below = omega (arith, w.below);
                inside = omega (arith, bound, length-set p.container p.reusable_index (some c));
                started = ground (arith, w.started);
              },
              ground (
                arith,
                get_elem?-set p.container p.reusable_index p.reusable_index (some c) bound,
              ),
              replace-IsPlaced p.container p.reusable_index c free,
            )
        | inr f ↦ rw f (
          record {
            ordered = w.ordered;
            below = w.below;
            inside = omega (arith, w.inside, length-append p.container (some c ∷ []));
            started = w.started;
          },
          get_elem?-end p.container (some c),
          added (end-Perm p.container (some c)),
        )
      ]

IsPlaced-Perm :
    (c : Connection) (xs ys zs : List (Option Connection))
    → Perm ys xs
    → IsPlaced c ys zs
    → IsPlaced c xs zs
IsPlaced-Perm c xs ys zs h (added p) = added (Perm.trans p (Perm.cons (some c) h))
IsPlaced-Perm c xs ys zs h (replaced old rest free before after) =
    replaced old rest free (Perm.trans (Perm.symm h) before) after

pub emplace_lem :
    (p : Pool) (c : Connection)
    → IsBounded p
    → IsBounded (emplace p c).1
      × (get_elem? (emplace p c).1.container (emplace p c).0 ≡ some (some c))
      × IsPlaced c p.container (emplace p c).1.container
unfolding emplace
emplace_lem p c w =
    let (bounded, found, placed) = place_lem (collect p) c (collect-IsBounded p w) in
    (
      bounded,
      found,
      IsPlaced-Perm c p.container (collect p).container (place (collect p) c).1.container
          (collect-Perm p w) placed,
    )
