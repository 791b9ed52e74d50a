-- ===== src/Strings/Print.antt =====
-- `std::to_string` of an unsigned number, and what `toDec` of include/utils/StringUtils.h reads back.
use fluent_net.Prelude.{
  ℕ, zero, suc, ◌+◌, ◌-◌, ◌*◌, ◌/◌, ◌%◌, ◌^◌, ◌≤◌, ◌<◌, List, [], ◌∷◌, ◌≡◌, ap, ◌∙◌, ◌⊎◌, inl, inr,
  arith, Lacks, if◌then◌else◌, ltb, length, All, Bool-cases,
}
use fluent_net.Strings.{to_dec}
use fluent_net.Strings.Decimal.{IsDigit, value_from, to_dec_wraps}

-- The digits of `n` in front of `out`; a round takes one, so `n + 1` rounds are enough.
unfoldable pub print_digits : ℕ → ℕ → List ℕ → List ℕ
print_digits zero n out = out
print_digits (suc fuel) n out =
    let out' = (b'0' + n % 10) ∷ out in
    let more = print_digits fuel (n / 10) out' in if ltb n 10 then out' else more

abbrev pub to_string : ℕ → List ℕ
to_string n = print_digits (suc n) n []

digits-value :
    (fuel n : ℕ) (out : List ℕ)
    → n < fuel
    → value_from 0 (print_digits fuel n out) ≡ value_from n out
unfolding print_digits
digits-value zero n out h = absurd (omega arith)
digits-value (suc fuel) n out h =
    let out' = (b'0' + n % 10) ∷ out in
    elim (Bool-cases (ltb n 10)) [
      | inl t ↦ rw t (
          let e : 0 * 10 + (b'0' + n % 10 - 48) ≡ n = ground (arith, t) in
          ap (λ k. value_from k out) e)
      | inr f ↦ rw f (
          let e : n / 10 * 10 + (b'0' + n % 10 - 48) ≡ n = omega arith in
          digits-value fuel (n / 10) out' (ground (arith, f)) ∙ ap (λ k. value_from k out) e)
    ]

pub digits-All :
    (fuel n : ℕ) (out : List ℕ) → All IsDigit out → All IsDigit (print_digits fuel n out)
unfolding print_digits
digits-All zero n out h = h
digits-All (suc fuel) n out h =
    let digit : IsDigit (b'0' + n % 10) = (omega arith, omega arith) in
    elim (Bool-cases (ltb n 10)) [
      | inl t ↦ rw t (digit, h)
      | inr f ↦ rw f (digits-All fuel (n / 10) ((b'0' + n % 10) ∷ out) (digit, h))
    ]

digits-longer :
    (fuel n : ℕ) (out : List ℕ) → 0 < fuel → length out < length (print_digits fuel n out)
unfolding print_digits
digits-longer zero n out h = absurd (omega arith)
digits-longer (suc zero) n out h = ground arith
digits-longer (suc (suc fuel)) n out h =
    ground (arith, digits-longer (suc fuel) (n / 10) ((b'0' + n % 10) ∷ out) (omega arith))

pub value-to_string : (n : ℕ) → value_from 0 (to_string n) ≡ n
value-to_string n = digits-value (suc n) n [] (omega arith)

pub digits-to_string : (n : ℕ) → All IsDigit (to_string n)
digits-to_string n = digits-All (suc n) n [] tt

pub some-to_string : (n : ℕ) → 0 < length (to_string n)
some-to_string n = digits-longer (suc n) n [] (omega arith)

-- `toDec` of a printed number, into an unsigned type of `w` bits, six or more.
pub to_dec-to_string : (w n : ℕ) → 48 ≤ 2 ^ w → to_dec w (to_string n) ≡ n % 2 ^ w
to_dec-to_string w n h =
    to_dec_wraps w (to_string n) h (digits-to_string n) ∙ ap (λ k. k % 2 ^ w) (value-to_string n)

pub digits-Lacks : (c : ℕ) (text : List ℕ) → (c < 48) ⊎ (57 < c) → All IsDigit text → Lacks c text
digits-Lacks c [] h d = tt
digits-Lacks c (x ∷ xs) h (d, ds) = (ground (arith, h, d), digits-Lacks c xs h ds)

pub to_string-Lacks : (c n : ℕ) → (c < 48) ⊎ (57 < c) → Lacks c (to_string n)
to_string-Lacks c n h = digits-Lacks c (to_string n) h (digits-to_string n)
