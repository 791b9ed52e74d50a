-- ===== src/Algorithms/Bits.antt =====
-- include/utils/Algorithms.h: the positions of bits. An `int` that is not negative is its number; the
-- bits of -v are those of 2 ^ 32 - v.
use Prim.Native.Nat.{bit_and}
use native.Mathlib.Nat.{pow-suc, div-eq_of_lt, div-eq_of_lt-le}
use fluent_net.Prelude.{
  ℕ, zero, suc, ◌+◌, ◌-◌, ◌*◌, ◌/◌, ◌%◌, ◌^◌, ◌≤◌, ◌<◌, Bool, ◌≡◌, refl, inl, inr, arith,
  if◌then◌else◌, ◌==◌, ltb, Bool-cases,
}

unfoldable pub lowbit : ℕ → ℕ
lowbit v = bit_and v ((2 ^ 32 - v) % 2 ^ 32)

unfoldable pub is_power_of_two : ℕ → Bool
is_power_of_two v = v == lowbit v

-- The loop of `highestBitPosition` from `i` `n - 1` down to 0.
unfoldable pub highest_from : ℕ → ℕ → ℕ
highest_from zero v = 0
highest_from (suc i) v = let rest = highest_from i v in if v / 2 ^ i % 2 == 1 then i else rest

abbrev pub highest_bit_position : ℕ → ℕ
highest_bit_position v = highest_from 32 v

unfoldable pub ceil_of_power_of_two : ℕ → ℕ
ceil_of_power_of_two v = let n = highest_bit_position v in if is_power_of_two v then n else n + 1

unfoldable pub floor_of_power_of_two : ℕ → ℕ
floor_of_power_of_two v = let n = highest_bit_position v in if is_power_of_two v then n else n - 1

-- The quotient by the half of a bound is the upper bit.
upper_bit : (v p : ℕ) → v < p * 2 → v / p % 2 ≡ (if ltb v p then 0 else 1)
upper_bit v p h = elim (Bool-cases (ltb v p)) [
  | inl y ↦ let q : v / p ≡ 0 = div-eq_of_lt (ground (arith, y)) in rw (y, q) refl
  | inr n ↦
      let q : v / p ≡ 1 =
        div-eq_of_lt-le {k = 1} p {m = v} (ground (arith, n)) (ground (arith, h)) in
      rw (n, q) refl
]

highest :
    (n v : ℕ) → 0 < v → v < 2 ^ n → (2 ^ highest_from n v ≤ v) × (v < 2 ^ suc (highest_from n v))
unfolding highest_from
highest zero v h k = absurd (omega arith)
highest (suc i) v h k =
    let bit = upper_bit v (2 ^ i) (omega (arith, pow-suc 2 i, k)) in
    elim (Bool-cases (ltb v (2 ^ i))) [
      | inl y ↦ rw (bit, y) (highest i v h (ground (arith, y)))
      | inr n ↦ rw (bit, n) (ground (arith, n), k)
    ]

-- `highestBitPosition` of a positive `int` is the position of its highest bit.
pub highest_bit_position_lem :
    (v : ℕ)
    → 0 < v
    → v < 2 ^ 31
    → (2 ^ highest_bit_position v ≤ v) × (v < 2 ^ suc (highest_bit_position v))
highest_bit_position_lem v h k = highest 32 v h (omega (arith, k))
