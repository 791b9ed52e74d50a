-- ===== src/Futures/Unroll.antt =====
-- include/future/Looper.h: the unrolled loop does as many rounds as it is asked for.
use Prim.Native.Nat.{bit_and, bit_and-bitwise}
use fluent_net.Prelude.{
  digits_enough, ℕ, zero, suc, ◌+◌, ◌*◌, ◌/◌, ◌%◌, ◌≤◌, min, ◌⊎◌, true, Option, none, some, ◌≡◌,
  refl, sym, ap, ◌∙◌, if◌then◌else◌, ltb, arith,
}
use fluent_net.Futures.{repeat, and_then, unroll_4x}

-- The last digit of a conjunction, and those before it.
and_last : (x mask : ℕ) → bit_and x mask ≡ bit_and (x / 2) (mask / 2) * 2 + min (x % 2) (mask % 2)
and_last zero mask = ground (arith, bit_and-bitwise 0 mask, bit_and-bitwise 0 (mask / 2))
and_last (suc x) mask =
    bit_and-bitwise (suc x) mask
    ∙ ap (λ d. d * 2 + min (suc x % 2) (mask % 2))
        (digits_enough (λ c. 0) min x (suc x / 2) (mask / 2) (omega arith)
          ∙ sym (bit_and-bitwise (suc x / 2) (mask / 2)))

and_nothing : (count x : ℕ) → x ≤ count → bit_and x 0 ≡ 0
and_nothing count zero h = bit_and-bitwise 0 0
and_nothing zero (suc x) h = absurd (omega arith)
and_nothing (suc count) (suc x) h =
    let before = and_nothing count (suc x / 2) (omega arith) in omega (arith, and_last (suc x) 0)

bit_and_one : (n : ℕ) → bit_and n 1 ≡ n % 2
bit_and_one n = omega (arith, and_last n 1, and_nothing n (n / 2) (omega arith))

bit_and_two : (n : ℕ) → bit_and n 2 ≡ n / 2 % 2 * 2
bit_and_two n = omega (arith, and_last n 2, bit_and_one (n / 2))

module _ {W : Type 0} where
  and_then_assoc :
      (o : Option W) (f g : W → Option W)
      → and_then (and_then o f) g ≡ and_then o (λ v. and_then (f v) g)
  and_then_assoc none f g = refl
  and_then_assoc (some w) f g = refl

  and_then_cong :
      (o : Option W) (f g : W → Option W) → ((v : W) → f v ≡ g v) → and_then o f ≡ and_then o g
  and_then_cong none f g h = refl
  and_then_cong (some w) f g h = h w

  and_then-some : (o : Option W) → and_then o some ≡ o
  and_then-some none = refl
  and_then-some (some w) = refl

module _ {W : Type 0} (action : W → Option W) where
  repeat_add :
      (m n : ℕ) (w : W)
      → and_then (repeat m action w) (λ v. repeat n action v) ≡ repeat (m + n) action w
  repeat_add zero n w = (let e : n ≡ 0 + n = omega arith in ap (λ k. repeat k action w) e)
  repeat_add (suc m) n w =
      let e : suc (m + n) ≡ suc m + n = omega arith in
      and_then_assoc (action w) (λ v. repeat m action v) (λ v. repeat n action v)
      ∙ and_then_cong (action w) _ (λ v. repeat (m + n) action v) (λ v. repeat_add m n v)
      ∙ ap (λ k. repeat k action w) e

  repeat_four :
      (k : ℕ) (four : W → Option W)
      → ((v : W) → four v ≡ repeat 4 action v)
      → (w : W) → repeat k four w ≡ repeat (k * 4) action w
  repeat_four zero four h w = refl
  repeat_four (suc k) four h w =
      let e : 4 + k * 4 ≡ suc k * 4 = omega arith in
      ap (λ o. and_then o (λ v. repeat k four v)) (h w)
      ∙ and_then_cong (repeat 4 action w) _ (λ v. repeat (k * 4) action v) (repeat_four k four h)
      ∙ repeat_add 4 (k * 4) w
      ∙ ap (λ n. repeat n action w) e

  twice : (v : W) → and_then (action v) action ≡ repeat 2 action v
  twice v =
      and_then_cong (action v) action (λ u. and_then (action u) some)
        (λ u. sym (and_then-some (action u)))

  four_times :
      (v : W)
      → and_then (and_then (action v) action) (λ u. and_then (action u) action) ≡ repeat 4 action v
  four_times v =
      ap (λ o. and_then o (λ u. and_then (action u) action)) (twice v)
      ∙ and_then_cong (repeat 2 action v) _ (λ u. repeat 2 action u) twice
      ∙ repeat_add 2 2 v

  -- A bit of the width tells of as many rounds as its weight.
  tail :
      (bit weight : ℕ) (some_times : W → Option W)
      → ((v : W) → some_times v ≡ repeat weight action v)
      → (bit ≡ 0) ⊎ (bit ≡ weight)
      → (v : W) → (if ltb 0 bit then some_times v else some v) ≡ repeat bit action v
  tail zero weight times h e v = refl
  tail (suc bit) weight times h e v =
      let same : weight ≡ suc bit = ground (arith, e) in
      let test : ltb 0 (suc bit) ≡ true = ground arith in
      rw test (h v ∙ ap (λ n. repeat n action v) same)

  -- What the macro makes of the loop is the loop: `width` rounds, none left out or done twice, and
  -- none after one that throws.
  pub unroll_4x_repeats : (width : ℕ) (w : W) → unroll_4x width action w ≡ repeat width action w
  unfolding unroll_4x
  unroll_4x_repeats width w =
      let total : width / 4 * 4 + bit_and width 2 + bit_and width 1 ≡ width =
        omega (arith, bit_and_one width, bit_and_two width) in
      let two : W → Option W =
        λ v. if ltb 0 (bit_and width 2) then and_then (action v) action else some v in
      let one : W → Option W = λ v. if ltb 0 (bit_and width 1) then action v else some v in
      ap (λ o. and_then (and_then o two) one) (repeat_four (width / 4) _ four_times w)
      ∙ ap (λ o. and_then o one)
          (and_then_cong (repeat (width / 4 * 4) action w) two
              (λ v. repeat (bit_and width 2) action v)
              (tail (bit_and width 2) 2 (λ v. and_then (action v) action) twice
                (ground (arith, bit_and_two width)))
            ∙ repeat_add (width / 4 * 4) (bit_and width 2) w)
      ∙ and_then_cong (repeat (width / 4 * 4 + bit_and width 2) action w) one
          (λ v. repeat (bit_and width 1) action v)
          (tail (bit_and width 1) 1 action (λ v. sym (and_then-some (action v)))
            (ground (arith, bit_and_one width)))
      ∙ repeat_add (width / 4 * 4 + bit_and width 2) (bit_and width 1) w
      ∙ ap (λ n. repeat n action w) total
