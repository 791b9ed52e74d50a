-- ===== src/Prelude/Access.antt =====
-- Reading and writing elements of a list by their index.
use Prim.Native.Nat.{ℕ, zero, suc, ◌<◌, ◌≤◌}
use mathlib.Core.Path.{◌≡◌, refl}
use mathlib.Core.List.{List, [], ◌∷◌, ◌++◌}
use mathlib.Core.Option.{none, some}
use native.Mathlib.Omega.{arith}
use fluent_net.Prelude.Tests.{◌==◌, if◌then◌else◌}
use fluent_net.Prelude.Lists.{length, get_elem?, set}

module _ {S : Type 0} where
  pub get_elem?-set :
      (xs : List S) (j i : ℕ) (x : S)
      → j < length xs
      → get_elem? (set xs j x) i ≡ (if i == j then some x else get_elem? xs i)
  get_elem?-set [] j i x h = absurd (omega arith)
  get_elem?-set (z ∷ zs) zero zero x h = refl
  get_elem?-set (z ∷ zs) zero (suc i) x h = ground arith
  get_elem?-set (z ∷ zs) (suc j) zero x h = ground arith
  get_elem?-set (z ∷ zs) (suc j) (suc i) x h = ground (arith, get_elem?-set zs j i x (omega arith))

  pub get_elem?-some : (xs : List S) (i : ℕ) → i < length xs → (a : S) × (get_elem? xs i ≡ some a)
  get_elem?-some [] i h = absurd (omega arith)
  get_elem?-some (x ∷ xs) zero h = (x, refl)
  get_elem?-some (x ∷ xs) (suc i) h = get_elem?-some xs i (omega arith)

  pub get_elem?-bound : (xs : List S) (i : ℕ) (a : S) → get_elem? xs i ≡ some a → i < length xs
  get_elem?-bound [] i a e = ground arith
  get_elem?-bound (x ∷ xs) zero a e = omega arith
  get_elem?-bound (x ∷ xs) (suc i) a e = omega (arith, get_elem?-bound xs i a e)

  pub get_elem?-none : (xs : List S) (i : ℕ) → length xs ≤ i → get_elem? xs i ≡ none
  get_elem?-none [] i h = refl
  get_elem?-none (x ∷ xs) zero h = absurd (omega arith)
  get_elem?-none (x ∷ xs) (suc i) h = get_elem?-none xs i (omega arith)

  pub get_elem?-end : (xs : List S) (x : S) → get_elem? (xs ++ x ∷ []) (length xs) ≡ some x
  get_elem?-end [] x = refl
  get_elem?-end (y ∷ xs) x = get_elem?-end xs x

  -- What stands in a list that has got longer.
  pub get_elem?-snoc :
      (xs : List S) (x : S) (i : ℕ)
      → get_elem? (xs ++ x ∷ []) i ≡ (if i == length xs then some x else get_elem? xs i)
  get_elem?-snoc [] x zero = refl
  get_elem?-snoc [] x (suc i) = ground arith
  get_elem?-snoc (y ∷ xs) x zero = ground arith
  get_elem?-snoc (y ∷ xs) x (suc i) = ground (arith, get_elem?-snoc xs x i)
