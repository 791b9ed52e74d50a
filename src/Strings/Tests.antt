-- ===== src/Strings/Tests.antt =====
-- include/utils/StringUtils.h at concrete texts; 46 is the dot.
use fluent_net.Prelude.{ℕ, List, [], ◌∷◌, ◌≡◌, ◌%◌, ◌^◌, refl, arith}
use fluent_net.Strings.{skip_pivots, skip_word, split_rounds, split, to_dec, to_dec_from}
use fluent_net.Strings.Decimal.{value_from, to_dec_wraps}

-- ".12..3"
abbrev dotted : List ℕ
dotted = 46 ∷ 49 ∷ 50 ∷ 46 ∷ 46 ∷ 51 ∷ []

dotted_pieces : split 46 dotted ≡ (1, 3) ∷ (5, 6) ∷ []
unfolding split split_rounds skip_pivots skip_word
dotted_pieces = refl

dotted_number : to_dec 16 (49 ∷ 50 ∷ 51 ∷ []) ≡ 123
unfolding to_dec_from
dotted_number = refl

-- "65537" into 16 bits
abbrev too_large : List ℕ
too_large = 54 ∷ 53 ∷ 53 ∷ 51 ∷ 55 ∷ []

too_large_wraps : to_dec 16 too_large ≡ 1
unfolding to_dec_from
too_large_wraps = refl

to_dec_wraps_example : to_dec 16 too_large ≡ value_from 0 too_large % 2 ^ 16
to_dec_wraps_example = to_dec_wraps 16 too_large (omega arith) (
  (omega arith, omega arith),
  (
    (omega arith, omega arith),
    ((omega arith, omega arith), ((omega arith, omega arith), ((omega arith, omega arith), tt))),
  ),
)
