-- ===== src/FastIo/Lines.antt =====
-- include/utils/FastIo.h: `getline`, line by line.
use fluent_net.Prelude.{
  ℕ, zero, suc, ◌+◌, ◌-◌, ◌≤◌, ◌<◌, true, false, Option, some, List, [], ◌∷◌, ◌≡◌, refl, sym, ap,
  ◌∙◌, inl, inr, arith, if◌then◌else◌, ◌==◌, ltb, Bool-cases, get_elem?, length, All, subst,
}
use fluent_net.FastIo.{
  FastIo, IoResult, capacity, clear, byte_of, put_line, read_line, getline, strlen2,
}
use fluent_net.FastIo.Search.{IsFrom, is_zero_at, strlen2_lem}

-- The bytes before `cur` are those that are not zero.
abbrev pub IsTidy : ℕ → FastIo → Type 0
IsTidy size io = IsFrom (is_zero_at io) io.cur (capacity size - 1)

abbrev pub AreBytes : List ℕ → Type 0
AreBytes line = All (λ c. (c == 0) ≡ false) line

byte_in :
    (line : List ℕ) (i : ℕ)
    → AreBytes line
    → i < length line
    → (byte_of (get_elem? line i) == 0) ≡ false
byte_in [] i b h = absurd (omega (arith, h))
byte_in (c ∷ line) zero (b, bs) h = b
byte_in (c ∷ line) (suc i) (b, bs) h = byte_in line i bs (omega (arith, h))

byte_behind : (line : List ℕ) (i : ℕ) → length line ≤ i → byte_of (get_elem? line i) ≡ 0
byte_behind [] i h = refl
byte_behind (c ∷ line) zero h = absurd (omega (arith, h))
byte_behind (c ∷ line) (suc i) h = byte_behind line i (omega (arith, h))

clear-IsTidy : (size : ℕ) (io : FastIo) → IsTidy size io → IsTidy size (clear io)
clear-IsTidy size io t = record {
  fails = λ i h. absurd (omega (arith, h));
  holds = λ i h l. elim (Bool-cases (ltb i io.cur)) [
    | inl y ↦ rw y refl
    | inr n ↦ rw n (t.holds i (ground (arith, n)) l)
  ];
}

-- The buffer with a line behind the others.
put_line-IsFrom :
    (size : ℕ) (line : List ℕ) (io : FastIo)
    → AreBytes line
    → IsTidy size io
    → IsFrom (is_zero_at (put_line line io)) (io.cur + length line) (capacity size - 1)
put_line-IsFrom size line io b t = record {
  fails = λ i h. elim (Bool-cases (ltb i io.cur)) [
    | inl y ↦ rw y (t.fails i (ground (arith, y)))
    | inr n ↦
        let inside : ltb i (io.cur + suc (length line)) ≡ true = ground (arith, h) in
        rw (n, inside) (byte_in line (i - io.cur) b (ground (arith, n, h)))
  ];
  holds = λ i h l.
      let behind : ltb i io.cur ≡ false = ground (arith, h) in
      elim (Bool-cases (ltb i (io.cur + suc (length line)))) [
        | inl y ↦ rw (behind, y, byte_behind line (i - io.cur) (omega (arith, h))) refl
        | inr n ↦ rw (behind, n) (t.holds i (omega (arith, h)) l)
      ];
}

-- What `getline` gives for a line that is read from `start` on.
pub record HasRead (size : ℕ) (line : List ℕ) (start : ℕ) (r : Option IoResult × FastIo)
    : Type 0 where
  pub result : r.0 ≡ some (record { start = start; len = length line })
  pub next : r.1.cur ≡ start + length line
  pub tidy : IsTidy size r.1

read_line-HasRead :
    (size : ℕ) (line : List ℕ) (io : FastIo)
    → AreBytes line
    → length line ≤ size
    → io.cur ≤ size
    → IsTidy size io
    → HasRead size line io.cur (read_line size (some line) io)
read_line-HasRead size line io b l c t =
    let q = put_line line io in
    let k = io.cur + length line in
    let from = put_line-IsFrom size line io b t in
    let bound : strlen2 size q ≡ k =
      strlen2_lem size k q from (omega arith) (omega (arith, l, c)) in
    let fits : ltb (io.cur + length line) (capacity size) ≡ true = ground (arith, l, c) in
    rw fits (record {
      result =
          ap (λ x. some (record { start = io.cur; len = x - io.cur })) bound
          ∙ ap (λ x. some (record { start = io.cur; len = x })) (omega arith);
      next = bound;
      tidy = subst (λ x. IsFrom (is_zero_at q) x (capacity size - 1)) (sym bound) from;
    })

-- A line of at most `N` bytes, none of them zero, is read whole, behind the lines that were read since
-- the buffer was cleared, or at its beginning where they come to more than `N` bytes.
pub getline-HasRead :
    (size : ℕ) (line : List ℕ) (io : FastIo)
    → AreBytes line
    → length line ≤ size
    → IsTidy size io
    → HasRead size line (if ltb size io.cur then 0 else io.cur) (getline size (some line) io)
unfolding getline
getline-HasRead size line io b l t = elim (Bool-cases (ltb size io.cur)) [
  | inl y ↦ rw y (read_line-HasRead size line (clear io) b l (omega arith) (clear-IsTidy size io t))
  | inr n ↦ rw n (read_line-HasRead size line io b l (ground (arith, n)) t)
]
