-- ===== src/FastIo.antt =====
-- include/utils/FastIo.h: a buffer that lines are read into one behind the other, and the search for the
-- end of the line that was read last. The buffer is a function from positions; the word that `strlen2`
-- loads has its first byte in its lowest bits.
pub mod Search
pub mod Lines
mod Tests
use fluent_net.Prelude.{
  take, ℕ, zero, suc, ◌+◌, ◌-◌, ◌*◌, ◌/◌, Bool, Option, none, some, List, [], ◌∷◌, get_elem?,
  length, if◌then◌else◌, ◌==◌, ltb,
}

-- `M`
abbrev pub capacity : ℕ → ℕ
capacity size = (size + 3) / 4 * 8 + 8

-- `_buf` and `cur`
pub record FastIo : Type 0 where
  pub buf : ℕ → ℕ
  pub cur : ℕ

abbrev pub new : FastIo
new = record { buf = λ i. 0; cur = 0 }

-- `IoResult` where `buf` is not null: the position and `len`.
pub record IoResult : Type 0 where
  pub start : ℕ
  pub len : ℕ

-- `lo` and `hi`
pub record Range : Type 0 where
  pub lo : ℕ
  pub hi : ℕ

-- The body of the loop of a binary search, where `lo < hi`.
abbrev pub halve : (ℕ → Bool) → Range → Range
halve test r =
    let mid = r.lo + (r.hi - r.lo) / 2 in
    if test mid then record { lo = r.lo; hi = mid } else record { lo = mid + 1; hi = r.hi }

abbrev pub narrow : (ℕ → Bool) → Range → Range
narrow test r = if ltb r.lo r.hi then halve test r else r

-- The loop, with its rounds bounded.
unfoldable pub search : (ℕ → Bool) → ℕ → Range → ℕ
search test zero r = r.lo
search test (suc n) r = search test n (narrow test r)

-- `strlen()`
abbrev pub strlen : ℕ → FastIo → ℕ
strlen size io =
    let r : Range = record { lo = io.cur; hi = capacity size - 1 } in
    search (λ i. io.buf i == 0) (r.hi - r.lo) r

-- The last loop of `strlen2`: `n` positions from `i` on, or `M - 1`.
unfoldable pub scan : (ℕ → Bool) → ℕ → ℕ → ℕ → ℕ
scan test last zero i = last
scan test last (suc n) i = let rest = scan test last n (suc i) in if test i then i else rest

-- `(lo ? lo-1 : lo) << 3`
abbrev pub scan_start : ℕ → ℕ
scan_start lo = (lo - 1) * 8

-- `strlen2()`
unfoldable pub strlen2 : ℕ → FastIo → ℕ
strlen2 size io =
    let r : Range = record { lo = io.cur / 8; hi = (capacity size - 1) / 8 } in
    let lo = search (λ b. io.buf (b * 8) == 0) (r.hi - r.lo) r in
    scan (λ i. io.buf i == 0) (capacity size - 1) 9 (scan_start lo)

-- `clear()`
abbrev pub clear : FastIo → FastIo
clear io = record { buf = λ i. if ltb i io.cur then 0 else io.buf i; cur = 0 }

abbrev pub byte_of : Option ℕ → ℕ
byte_of none = 0
byte_of (some c) = c

-- What `std::istream::getline` writes: the line, and a zero behind it.
abbrev pub put_line : List ℕ → FastIo → FastIo
put_line line io = record io {
  buf = λ i.
      if ltb i io.cur
      then io.buf i
      else if ltb i (io.cur + suc (length line))
      then byte_of (get_elem? line (i - io.cur))
      else io.buf i;
}

-- A line that fits has been written.
abbrev pub found_line : ℕ → List ℕ → FastIo → Option IoResult × FastIo
found_line size line io =
    let q = put_line line io in
    let bound = strlen2 size q in
    (some (record { start = io.cur; len = bound - io.cur }), record q { cur = bound })

-- The part behind `clear`. Of a line that does not fit, `std::istream::getline` writes what fits, and
-- fails; where the stream has none, it writes the zero alone.
abbrev pub read_line : ℕ → Option (List ℕ) → FastIo → Option IoResult × FastIo
read_line size none io = (none, put_line [] io)
read_line size (some line) io =
    if ltb (io.cur + length line) (capacity size)
    then found_line size line io
    else (none, put_line (take (capacity size - io.cur - 1) line) io)

-- `getline(in)`, where the stream has a line or none.
unfoldable pub getline : ℕ → Option (List ℕ) → FastIo → Option IoResult × FastIo
getline size line io = read_line size line (if ltb size io.cur then clear io else io)
