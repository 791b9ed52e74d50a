-- ===== src/Prelude/Digits.antt =====
-- Operations on binary digits, whatever they do with a pair of digits.
use Prim.Native.Nat.{ℕ, zero, suc, ◌+◌, ◌*◌, ◌/◌, ◌%◌, ◌≤◌, digits}
use mathlib.Core.Path.{◌≡◌, refl, sym, ap, ◌∙◌}
use native.Mathlib.Omega.{arith}

module _ (rest : ℕ → ℕ) (pair : ℕ → ℕ → ℕ) where
  digits_none : (count y : ℕ) → digits rest pair count 0 y ≡ rest y
  digits_none zero y = refl
  digits_none (suc count) y = refl

  digits_agree : (c d x y : ℕ) → x ≤ c → x ≤ d → digits rest pair c x y ≡ digits rest pair d x y
  digits_agree c d zero y h g = digits_none c y ∙ sym (digits_none d y)
  digits_agree zero d (suc x) y h g = absurd (omega arith)
  digits_agree (suc c) zero (suc x) y h g = absurd (omega arith)
  digits_agree (suc c) (suc d) (suc x) y h g =
      ap (λ higher. higher * 2 + pair (suc x % 2) (y % 2))
        (digits_agree c d (suc x / 2) (y / 2) (omega arith) (omega arith))

  -- Digits to go beyond those of the first number change nothing.
  pub digits_enough :
      (count x y : ℕ) → x ≤ count → digits rest pair count x y ≡ digits rest pair x x y
  digits_enough count x y h = digits_agree count x x y h (omega arith)
