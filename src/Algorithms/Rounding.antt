-- ===== src/Algorithms/Rounding.antt =====
-- What the rounding of include/utils/Algorithms.h computes.
use Prim.Native.Nat.{bit_or}
use native.Mathlib.Nat.{
  pow-suc, div-div-eq-div-mul, div-eq_of_lt-le, one-le-pow, div-le_self, mul_comm, pow-le-pow_right,
}
use native.Mathlib.Decide.{dec_le, dec_lt}
use fluent_net.Prelude.{
  ℕ, zero, suc, ◌+◌, ◌-◌, ◌*◌, ◌/◌, ◌%◌, ◌^◌, ◌≤◌, ◌<◌, ◌≡◌, refl, arith, ap, sym, max,
}
use fluent_net.Algorithms.{smear, round_to_power_of_two}
use fluent_net.Algorithms.BitOr.{bit_or_step, le-bit_or, bit_or-lt-pow, bit_or_mask}

pow_add : (a b c : ℕ) → c ≡ a + b → 2 ^ c ≡ 2 ^ a * 2 ^ b
pow_add zero b c e = let e' : c ≡ b = omega arith in rw e' (omega arith)
pow_add (suc a) b zero e = absurd (omega arith)
pow_add (suc a) b (suc c) e =
    omega (arith, pow-suc 2 c, ap (λ (t : ℕ). t * 2 ^ b) (pow-suc 2 a), pow_add a b c (omega arith))

-- The number `x` has `k` digits, of which the top `m` are ones.
record HasOnes (k m x : ℕ) : Type 0 where
  below : x < 2 ^ k
  ones : 2 ^ k ≤ x + 2 ^ (k - m)

quotient_ones : (p m x : ℕ) → 0 < p → p ≤ m → p * m ≤ x + p → x < p * m → x / m ≡ p - 1
quotient_ones zero m x z le lo hi = absurd (omega arith)
quotient_ones (suc n) m x z le lo hi =
    let e : suc n - 1 ≡ n = omega arith in
    rw e (div-eq_of_lt-le m {m = x} (omega arith) (omega arith))

quotient_ones' : (m p x : ℕ) → 0 < m → 0 < p → p * m ≤ x + p → x < p * m → x / p ≡ m - 1
quotient_ones' zero p x z w lo hi = absurd (omega arith)
quotient_ones' (suc n) p x z w lo hi =
    let e : suc n - 1 ≡ n = omega arith in
    rw e (div-eq_of_lt-le p {m = x} (omega arith) (omega arith))

mask_top : (j m : ℕ) → 0 < m → j * m ≤ (m - 1) * j + (j - 1) + 1
mask_top j zero h = absurd (omega arith)
mask_top j (suc m) h = let e : suc m - 1 ≡ m = omega arith in rw e (omega arith)

-- Here `k ≡ j + m` with `j ≤ m`: the shifted number is a mask of `j` ones.
smear_mask : (j m k x : ℕ) → j ≤ m → k ≡ j + m → HasOnes k m x → 2 ^ k ≤ bit_or x (x / 2 ^ m) + 1
smear_mask j m k x le e v =
    let p : 2 ^ k ≡ 2 ^ j * 2 ^ m = pow_add j m k e in
    let d : k - m ≡ j = omega arith in
    let lo : 2 ^ j * 2 ^ m ≤ x + 2 ^ j = rw (← p, ← d) v.ones in
    let hi : x < 2 ^ j * 2 ^ m = rw (← p) v.below in
    let jm : 2 ^ j ≤ 2 ^ m = pow-le-pow_right {n = 2} (omega arith) le in
    let q : x / 2 ^ m ≡ 2 ^ j - 1 =
      quotient_ones (2 ^ j) (2 ^ m) x (one-le-pow j 2 (omega arith)) jm lo hi in
    let r : x / 2 ^ j ≡ 2 ^ m - 1 =
      quotient_ones' (2 ^ m) (2 ^ j) x (one-le-pow m 2 (omega arith)) (one-le-pow j 2 (omega arith))
        lo hi in
    let w : bit_or x (x / 2 ^ m) ≡ (2 ^ m - 1) * 2 ^ j + (2 ^ j - 1) = rw (q, bit_or_mask j x, r) in
    rw (w, p) (mask_top (2 ^ j) (2 ^ m) (one-le-pow m 2 (omega arith)))

-- At most half of the `k` digits are missing: one step fills all.
smear_full : (k m x : ℕ) → k ≤ m + m → HasOnes k m x → 2 ^ k ≤ bit_or x (x / 2 ^ m) + 1
smear_full k m x h v = elim (dec_le k m) [
  | yes le ↦
      let e : k - m ≡ 0 = omega arith in
      let o : 2 ^ k ≤ x + 1 = rw e at v.ones in omega (arith, le-bit_or x (x / 2 ^ m))
  | no gt ↦ smear_mask (k - m) m k x (omega arith) (omega arith) v
]

smear_ones : (k m x : ℕ) → HasOnes k m x → HasOnes k (m + m) (bit_or x (x / 2 ^ m))
smear_ones zero m x v = record {
  below = bit_or-lt-pow 0 x (x / 2 ^ m) v.below (omega (arith, div-le_self x (2 ^ m), v.below));
  ones = omega (arith, one-le-pow (0 - (m + m)) 2 (omega arith));
}
smear_ones (suc k) m x v = record {
  below =
      bit_or-lt-pow (suc k) x (x / 2 ^ m) v.below (omega (arith, div-le_self x (2 ^ m), v.below));
  ones = elim (dec_le (m + m) k) [
    | yes le ↦
        let e : suc k - m ≡ suc (k - m) = omega arith in
        let e' : suc k - (m + m) ≡ suc (k - (m + m)) = omega arith in
        let o : 2 ^ suc k ≤ x + 2 ^ suc (k - m) = rw e at v.ones in
        let ih = smear_ones k m (x / 2) (record {
          below = omega (arith, v.below, pow-suc 2 k);
          ones = omega (arith, o, pow-suc 2 k, pow-suc 2 (k - m));
        }) in
        let c : x / 2 ^ m / 2 ≡ x / 2 / 2 ^ m =
          rw (div-div-eq-div-mul x (2 ^ m) 2, mul_comm (2 ^ m) 2)
            (sym (div-div-eq-div-mul x 2 (2 ^ m))) in
        let s : bit_or x (x / 2 ^ m)
            ≡ bit_or (x / 2) (x / 2 / 2 ^ m) * 2 + max (x % 2) (x / 2 ^ m % 2) =
          rw (← c) (bit_or_step x (x / 2 ^ m)) in
        rw e' (omega (arith, ih.ones, s, pow-suc 2 k, pow-suc 2 (k - (m + m))))
    | no gt ↦
        let e : suc k - (m + m) ≡ 0 = omega arith in rw e (smear_full (suc k) m x (omega arith) v)
  ];
}

smear_range : (m x : ℕ) → x < 2 ^ 30 → (smear m x ≡ bit_or x (x / 2 ^ m)) × (smear m x < 2 ^ 30)
unfolding smear
smear_range m x h =
    ground (arith, bit_or-lt-pow 30 x (x / 2 ^ m) h (omega (arith, div-le_self x (2 ^ m))))

-- `x` lies between two neighbouring powers of two.
pow_between : (n x : ℕ) → 0 < x → x < 2 ^ n → (k : ℕ) × (k < n) × (2 ^ k ≤ x) × (x < 2 ^ suc k)
pow_between zero x lo hi = absurd (omega arith)
pow_between (suc n) x lo hi = elim (dec_lt x (2 ^ n)) [
  | yes less ↦ let (k, h, p, q) = pow_between n x lo less in (k, omega arith, p, q)
  | no more ↦ (n, omega arith, omega arith, hi)
]

pow_mono : (j k : ℕ) → j ≤ k → 2 ^ j ≤ 2 ^ k
pow_mono j k h = pow-le-pow_right {n = 2} (omega arith) h

smear-HasOnes : (k m x : ℕ) → k ≤ 30 → HasOnes k m x → HasOnes k (m + m) (smear m x)
smear-HasOnes k m x le v =
    rw ((smear_range m x (omega (arith, v.below, pow_mono k 30 le))).0) (smear_ones k m x v)

-- Five steps from the top digit fill all `k ≤ 30` digits.
smear_all :
    (k x : ℕ)
    → k ≤ 30
    → HasOnes k 1 x
    → smear 16 (smear 8 (smear 4 (smear 2 (smear 1 x)))) + 1 ≡ 2 ^ k
smear_all k x le v =
    let full : HasOnes k 32 (smear 16 (smear 8 (smear 4 (smear 2 (smear 1 x))))) =
      smear-HasOnes k 16 _ le (
        smear-HasOnes k 8 _ le
          (smear-HasOnes k 4 _ le (smear-HasOnes k 2 _ le (smear-HasOnes k 1 x le v)))) in
    let e : k - 32 ≡ 0 = omega arith in
    let o : 2 ^ k ≤ smear 16 (smear 8 (smear 4 (smear 2 (smear 1 x)))) + 1 = rw e at full.ones in
    omega (arith, full.below, o)

-- From 1 to 2 ^ 30 the result is the least power of two that is not below the argument.
pub round_to_power_of_two_least :
    (v : ℕ)
    → 1 ≤ v
    → v ≤ 2 ^ 30
    → (k : ℕ) × (round_to_power_of_two v ≡ 2 ^ k) × (v ≤ 2 ^ k) × (2 ^ k < 2 * v)
unfolding round_to_power_of_two
round_to_power_of_two_least zero h g = absurd (omega arith)
round_to_power_of_two_least (suc zero) h g = (0, unfold smear in refl, omega arith, omega arith)
round_to_power_of_two_least (suc (suc u)) h g =
    let (k, lt, lo, hi) = pow_between 30 (suc u) (omega arith) (omega arith) in
    let d : (suc (suc u) + 2 ^ 32 - 1) % 2 ^ 32 ≡ suc u = omega arith in
    let ones : HasOnes (suc k) 1 (suc u) = record {
      below = hi;
      ones = let e : suc k - 1 ≡ k = omega arith in rw e (omega (arith, pow-suc 2 k));
    } in
    let r = smear_all (suc k) (suc u) (omega arith) ones in
    let le = pow_mono (suc k) 30 (omega arith) in
    (suc k, rw (d, r) (omega arith), omega arith, omega (arith, pow-suc 2 k))
