-- ===== src/Algorithms/BitOr.antt =====
-- Laws of `|` on numbers of any width, which the rounding of include/utils/Algorithms.h rests on.
use Prim.Native.Nat.{bit_or, bit_or-bitwise}
use native.Mathlib.Nat.{pow-suc, div-div-eq-div-mul, one-le-pow, mul_comm, mul_assoc}
use fluent_net.Prelude.{
  digits_enough, ℕ, zero, suc, ◌+◌, ◌-◌, ◌*◌, ◌/◌, ◌%◌, ◌^◌, ◌≤◌, ◌<◌, max, ◌≡◌, sym, ap, ◌∙◌,
  arith,
}

pub zero-bit_or : (b : ℕ) → bit_or 0 b ≡ b
zero-bit_or b = bit_or-bitwise 0 b

pub bit_or_step : (a b : ℕ) → bit_or a b ≡ bit_or (a / 2) (b / 2) * 2 + max (a % 2) (b % 2)
bit_or_step zero b = omega (arith, zero-bit_or b, zero-bit_or (b / 2))
bit_or_step (suc a) b =
    bit_or-bitwise (suc a) b
    ∙ ap (λ d. d * 2 + max (suc a % 2) (b % 2))
        (digits_enough (λ c. c) max a (suc a / 2) (b / 2) (omega arith)
          ∙ sym (bit_or-bitwise (suc a / 2) (b / 2)))

le-bit_or_fuel : (n a b : ℕ) → a ≤ n → a ≤ bit_or a b
le-bit_or_fuel n zero b h = omega arith
le-bit_or_fuel zero (suc a) b h = absurd (omega arith)
le-bit_or_fuel (suc n) (suc a) b h =
    omega (arith, bit_or_step (suc a) b, le-bit_or_fuel n (suc a / 2) (b / 2) (omega arith))

pub le-bit_or : (a b : ℕ) → a ≤ bit_or a b
le-bit_or a b = le-bit_or_fuel a a b (omega arith)

bit_or-zero_fuel : (n a : ℕ) → a ≤ n → bit_or a 0 ≡ a
bit_or-zero_fuel n zero h = zero-bit_or 0
bit_or-zero_fuel zero (suc a) h = absurd (omega arith)
bit_or-zero_fuel (suc n) (suc a) h =
    omega (arith, bit_or_step (suc a) 0, bit_or-zero_fuel n (suc a / 2) (omega arith))

pub bit_or-zero : (a : ℕ) → bit_or a 0 ≡ a
bit_or-zero a = bit_or-zero_fuel a a (omega arith)

pub bit_or-lt-pow : (k a b : ℕ) → a < 2 ^ k → b < 2 ^ k → bit_or a b < 2 ^ k
bit_or-lt-pow zero a b h g =
    let p : a ≡ 0 = omega arith in let q : b ≡ 0 = omega arith in rw (p, q) (omega arith)
bit_or-lt-pow (suc k) a b h g =
    let e = pow-suc 2 k in
    omega (arith, bit_or_step a b, bit_or-lt-pow k (a / 2) (b / 2) (omega arith) (omega arith))

-- A mask of j ones sets the low j digits.
pub bit_or_mask : (j x : ℕ) → bit_or x (2 ^ j - 1) ≡ x / 2 ^ j * 2 ^ j + (2 ^ j - 1)
bit_or_mask zero x = omega (arith, bit_or-zero x)
bit_or_mask (suc j) x =
    let p = pow-suc 2 j in
    let half : (2 ^ suc j - 1) / 2 ≡ 2 ^ j - 1 = omega (arith, one-le-pow j 2 (omega arith)) in
    let ih : bit_or (x / 2) ((2 ^ suc j - 1) / 2) ≡ x / 2 / 2 ^ j * 2 ^ j + (2 ^ j - 1) =
      rw half (bit_or_mask j (x / 2)) in
    let d : x / 2 / 2 ^ j ≡ x / 2 ^ suc j =
      rw (p, mul_comm (2 ^ j) 2) (div-div-eq-div-mul x 2 (2 ^ j)) in
    let ih' : bit_or (x / 2) ((2 ^ suc j - 1) / 2) ≡ x / 2 ^ suc j * 2 ^ j + (2 ^ j - 1) =
      rw (← d) ih in
    let q : x / 2 ^ suc j * 2 ^ suc j ≡ x / 2 ^ suc j * 2 ^ j * 2 =
      ap (λ (t : ℕ). x / 2 ^ suc j * t) p ∙ sym (mul_assoc (x / 2 ^ suc j) (2 ^ j) 2) in
    omega (arith, bit_or_step x (2 ^ suc j - 1), ih', q, p, one-le-pow j 2 (omega arith))

-- A number below the low end of another is added.
pub bit_or_low : (k a b : ℕ) → b < 2 ^ k → bit_or (a * 2 ^ k) b ≡ a * 2 ^ k + b
bit_or_low zero a b h =
    let none : b ≡ 0 = omega arith in rw none (bit_or-zero (a * 1) ∙ omega arith)
bit_or_low (suc k) a b h =
    let p = pow-suc 2 k in
    let q : a * 2 ^ suc k ≡ a * 2 ^ k * 2 = ap (λ (t : ℕ). a * t) p ∙ sym (mul_assoc a (2 ^ k) 2) in
    let half : a * 2 ^ suc k / 2 ≡ a * 2 ^ k = omega (arith, q) in
    let ih : bit_or (a * 2 ^ suc k / 2) (b / 2) ≡ a * 2 ^ k + b / 2 =
      rw half (bit_or_low k a (b / 2) (omega (arith, p, h))) in
    omega (arith, bit_or_step (a * 2 ^ suc k) b, ih, q)
