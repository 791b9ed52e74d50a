-- ===== src/Strings.antt =====
-- include/utils/StringUtils.h: a text is the list of its characters, without the closing zero.
pub mod Pieces
pub mod Decimal
pub mod Print
pub mod Join
mod Tests
use fluent_net.Prelude.{
  ℕ, zero, suc, ◌+◌, ◌-◌, ◌*◌, ◌%◌, ◌^◌, Bool, List, [], ◌∷◌, if◌then◌else◌, ◌==◌, ltb, length,
  take, drop,
}

module _ (pivot : ℕ) where
  -- `while(*str && *str == pivot)`: the rest of the text and the index there.
  unfoldable pub skip_pivots : List ℕ → ℕ → List ℕ × ℕ
  skip_pivots [] pos = ([], pos)
  skip_pivots (c ∷ cs) pos =
      let rest = skip_pivots cs (suc pos) in if c == pivot then rest else (c ∷ cs, pos)

  -- `while(*str && *str != pivot)`
  unfoldable pub skip_word : List ℕ → ℕ → List ℕ × ℕ
  skip_word [] pos = ([], pos)
  skip_word (c ∷ cs) pos =
      let rest = skip_word cs (suc pos) in if c == pivot then (c ∷ cs, pos) else rest

  -- The outer loop; a round takes a character at least, so the length is enough fuel.
  unfoldable pub split_rounds : ℕ → List ℕ → ℕ → List (ℕ × ℕ)
  split_rounds zero str pos = []
  split_rounds (suc n) [] pos = []
  split_rounds (suc n) (c ∷ cs) pos =
      let (word, lo) = skip_pivots (c ∷ cs) pos in
      let (rest, hi) = skip_word word lo in
      let pieces = split_rounds n rest hi in if ltb lo hi then (lo, hi) ∷ pieces else pieces

  unfoldable pub split : List ℕ → List (ℕ × ℕ)
  split str = split_rounds (length str) str 0

-- A `char`, which is signed, in an unsigned type of `w` bits: the bytes from 128 on are negative.
abbrev pub char_value : ℕ → ℕ → ℕ
char_value w c = if ltb c 128 then c else c + (2 ^ w - 2 ^ 8)

-- `toDec<T>` for an unsigned `T` of `w` bits, eight or more; a character below '0' counts as the wrapped
-- difference.
unfoldable pub to_dec_from : ℕ → ℕ → List ℕ → ℕ
to_dec_from w dec [] = dec
to_dec_from w dec (c ∷ cs) = to_dec_from w ((dec * 10 + char_value w c + (2 ^ w - 48)) % 2 ^ w) cs

abbrev pub to_dec : ℕ → List ℕ → ℕ
to_dec w str = to_dec_from w 0 str

-- `split` of a `std::string`, which hands its characters and their number to the loops.
abbrev pub split_string : ℕ → List ℕ → List (ℕ × ℕ)
split_string pivot str = split pivot str

-- `s.substr(p.first, p.second - p.first)`
abbrev pub substr : List ℕ → ℕ × ℕ → List ℕ
substr s (lo, hi) = take (hi - lo) (drop lo s)
