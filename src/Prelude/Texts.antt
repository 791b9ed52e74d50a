-- ===== src/Prelude/Texts.antt =====
-- A text is the list of its bytes; `std::find` gives the index of the first match, or the length.
use Prim.Native.Nat.{ℕ, suc, ◌≤◌}
use Prim.Native.Char.{code}
use Prim.Native.String.{String}
use mathlib.Core.Bool.{Bool, true, false, not, ◌&&◌}
use mathlib.Core.List.{List, [], ◌∷◌, ◌++◌}
use mathlib.Core.Logic.{inl, inr}
use mathlib.Core.Path.{◌≡◌, refl, ap}
use native.Mathlib.Omega.{arith}
use fluent_net.Prelude.Tests.{◌==◌, if◌then◌else◌, Bool-cases}
use fluent_net.Prelude.Lists.{length, take, drop, All}

-- The bytes of an ASCII literal.
abbrev pub codes : String → List ℕ
codes String.[] = []
codes (String.◌∷◌ c s) = code c ∷ codes s

abbrev pub find : ℕ → List ℕ → ℕ
find c [] = 0
find c (x ∷ xs) = let rest = suc (find c xs) in if x == c then 0 else rest

abbrev pub Lacks : ℕ → List ℕ → Type 0
Lacks c = All (λ x. (x == c) ≡ false)

pub find-Lacks :
    (c : ℕ) (word rest : List ℕ) → Lacks c word → find c (word ++ c ∷ rest) ≡ length word
find-Lacks c [] rest h = ground arith
find-Lacks c (x ∷ xs) rest (h, hs) = rw h (ap suc (find-Lacks c xs rest hs))

pub find-bound : (c : ℕ) (text : List ℕ) → find c text ≤ length text
find-bound c [] = omega arith
find-bound c (x ∷ xs) = ground (arith, find-bound c xs)

pub find_all-Lacks : (c : ℕ) (text : List ℕ) → Lacks c text → find c text ≡ length text
find_all-Lacks c [] h = refl
find_all-Lacks c (x ∷ xs) (h, hs) = rw h (ap suc (find_all-Lacks c xs hs))

module _ {ℓ} {A : Type ℓ} where
  pub take-length-append : (xs ys : List A) → take (length xs) (xs ++ ys) ≡ xs
  take-length-append [] ys = refl
  take-length-append (x ∷ xs) ys = ap (◌∷◌ x) (take-length-append xs ys)

  pub drop-length-append : (xs ys : List A) → drop (length xs) (xs ++ ys) ≡ ys
  drop-length-append [] ys = refl
  drop-length-append (x ∷ xs) ys = drop-length-append xs ys

  pub drop-past : (xs : List A) (y : A) (ys : List A) → drop (suc (length xs)) (xs ++ y ∷ ys) ≡ ys
  drop-past [] y ys = refl
  drop-past (x ∷ xs) y ys = drop-past xs y ys

abbrev pub lacks : ℕ → List ℕ → Bool
lacks c [] = true
lacks c (x ∷ xs) = not (x == c) && lacks c xs

pub lacks-Lacks : (c : ℕ) (text : List ℕ) → lacks c text ≡ true → Lacks c text
lacks-Lacks c [] h = tt
lacks-Lacks c (x ∷ xs) h = elim (Bool-cases (x == c)) [
  | inl y ↦ absurd (ground arith)
  | inr n ↦ (n, lacks-Lacks c xs (ground arith))
]
