-- ===== src/Strings/Decimal.antt =====
-- include/utils/StringUtils.h, `toDec`: what it makes of digits.
use native.Mathlib.Nat.{add-mul-mod_self_right, mod-add-div', zero-mod}
use fluent_net.Prelude.{
  ℕ, ◌+◌, ◌-◌, ◌*◌, ◌/◌, ◌%◌, ◌^◌, ◌≤◌, List, [], ◌∷◌, ◌≡◌, refl, sym, ap, ◌∙◌, All, arith,
}
use fluent_net.Strings.{char_value, to_dec, to_dec_from}

-- The character is '0' to '9'.
abbrev pub IsDigit : ℕ → Type 0
IsDigit c = (48 ≤ c) × (c ≤ 57)

-- The number that the digits write, behind those of `dec`.
abbrev pub value_from : ℕ → List ℕ → ℕ
value_from dec [] = dec
value_from dec (c ∷ cs) = value_from (dec * 10 + (c - 48)) cs

wrapped_step :
    (m dec c : ℕ) → 48 ≤ m → 48 ≤ c → (dec % m * 10 + c + (m - 48)) % m ≡ (dec * 10 + (c - 48)) % m
wrapped_step m dec c h g =
    let q = dec / m in
    let whole = mod-add-div' dec m in
    let far : q * 10 * m ≡ q * m * 10 = grind arith in
    let total : dec % m * 10 + c + (m - 48) + q * 10 * m ≡ dec * 10 + (c - 48) + 1 * m =
      omega (arith, whole, far) in
    sym (add-mul-mod_self_right (dec % m * 10 + c + (m - 48)) (q * 10) m)
    ∙ ap (λ n. n % m) total
    ∙ add-mul-mod_self_right (dec * 10 + (c - 48)) 1 m

digit_char : (w c : ℕ) → IsDigit c → char_value w c ≡ c
digit_char w c d = ground (arith, d.1)

digits_from :
    (w dec : ℕ) (str : List ℕ)
    → 48 ≤ 2 ^ w
    → All IsDigit str
    → to_dec_from w (dec % 2 ^ w) str ≡ value_from dec str % 2 ^ w
unfolding to_dec_from
digits_from w dec [] h d = refl
digits_from w dec (c ∷ cs) h (d, ds) =
    ap (λ x. to_dec_from w ((dec % 2 ^ w * 10 + x + (2 ^ w - 48)) % 2 ^ w) cs) (digit_char w c d)
    ∙ ap (λ n. to_dec_from w n cs) (wrapped_step (2 ^ w) dec c h d.0)
    ∙ digits_from w (dec * 10 + (c - 48)) cs h ds

-- `toDec` of digits into an unsigned type of `w` bits, six or more: the number that they write, modulo
-- 2 ^ w.
pub to_dec_wraps :
    (w : ℕ) (str : List ℕ) → 48 ≤ 2 ^ w → All IsDigit str → to_dec w str ≡ value_from 0 str % 2 ^ w
to_dec_wraps w str h d =
    let none_yet : 0 ≡ 0 % 2 ^ w = sym (zero-mod (2 ^ w)) in
    ap (λ n. to_dec_from w n str) none_yet ∙ digits_from w 0 str h d
