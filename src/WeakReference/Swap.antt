-- ===== src/WeakReference/Swap.antt =====
-- include/utils/WeakReference.h: writing and exchanging slots of a container.
use fluent_net.Prelude.{
  ℕ, zero, suc, ◌<◌, ◌≡◌, sym, subst, some, List, [], ◌∷◌, inl, inr, if◌then◌else◌, ◌==◌, set,
  get_elem?, get_elem?-set, get_elem?-some, length, length-set, arith, Option-cases,
}
use mathlib.Core.Option.{some-injective}
use mathlib.Core.List.{Perm}
use mathlib.Core.List.Perm
use fluent_net.WeakReference.{swap}

module _ {S : Type 0} where
  -- Writing one slot exchanges its value for the new one.
  pub set-Perm :
      (x y : S) (xs : List S) (j : ℕ) → get_elem? xs j ≡ some y → Perm (y ∷ set xs j x) (x ∷ xs)
  set-Perm x y [] j e = ground arith
  set-Perm x y (z ∷ zs) zero e =
      subst (λ v. Perm (y ∷ x ∷ zs) (x ∷ v ∷ zs)) (sym (some-injective z y e)) (Perm.swap x y zs)
  set-Perm x y (z ∷ zs) (suc j) e =
      Perm.trans (Perm.swap z y (set zs j x))
        (Perm.trans (Perm.cons z (set-Perm x y zs j e)) (Perm.swap x z zs))

  -- Exchanging two slots exchanges them and loses none.
  pub swap-Perm : (xs : List S) (i j : ℕ) → j < i → i < length xs → Perm (swap xs i j) xs
  unfolding swap
  swap-Perm [] i j g h = absurd (omega arith)
  swap-Perm (x ∷ xs) zero j g h = absurd (omega arith)
  swap-Perm (x ∷ xs) (suc i) zero g h =
      let (a, e) = get_elem?-some xs i (omega arith) in ground (arith, set-Perm x a xs i e)
  swap-Perm (x ∷ xs) (suc i) (suc j) g h =
      let (a, e) = get_elem?-some xs i (omega arith) in
      let (b, f) = get_elem?-some xs j (omega arith) in
      ground (arith, Perm.cons x (swap-Perm xs i j (omega arith) (omega arith)))

  pub length-swap : (xs : List S) (i j : ℕ) → length (swap xs i j) ≡ length xs
  unfolding swap
  length-swap xs i j = elim (Option-cases (get_elem? xs i)) [
    | inl e ↦ ground arith
    | inr (a, e) ↦ elim (Option-cases (get_elem? xs j)) [
      | inl f ↦ ground arith
      | inr (b, f) ↦ ground (arith, length-set (set xs i b) j a, length-set xs i b)
    ]
  ]

  -- What stands where after an exchange.
  pub get_elem?-swap :
      (xs : List S) (i j k : ℕ)
      → i < length xs
      → j < length xs
      → get_elem? (swap xs i j) k
        ≡ (if k == j then get_elem? xs i else (if k == i then get_elem? xs j else get_elem? xs k))
  unfolding swap
  get_elem?-swap xs i j k h g =
      let (a, e) = get_elem?-some xs i h in
      let (b, f) = get_elem?-some xs j g in
      ground (
        arith,
        get_elem?-set (set xs i b) j k a (omega (arith, length-set xs i b)),
        get_elem?-set xs i k b h,
      )
