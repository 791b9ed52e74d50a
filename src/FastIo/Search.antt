-- ===== src/FastIo/Search.antt =====
-- include/utils/FastIo.h: the searches find the first zero.
use fluent_net.Prelude.{
  ℕ, zero, suc, ◌+◌, ◌-◌, ◌*◌, ◌/◌, ◌≤◌, ◌<◌, Bool, true, false, ◌≡◌, sym, ◌∙◌, inl, inr, arith,
  ◌==◌, ltb, Bool-cases,
}
use fluent_net.FastIo.{FastIo, capacity, Range, narrow, search, strlen, scan, scan_start, strlen2}

-- A test that holds from `k` on, up to `last`.
pub record IsFrom (test : ℕ → Bool) (k last : ℕ) : Type 0 where
  pub fails : (i : ℕ) → i < k → test i ≡ false
  pub holds : (i : ℕ) → k ≤ i → i ≤ last → test i ≡ true

pub record IsAround (k last : ℕ) (n : ℕ) (r : Range) : Type 0 where
  pub above : r.lo ≤ k
  pub below : k ≤ r.hi
  pub inside : r.hi ≤ last
  pub enough : r.hi ≤ r.lo + n

-- A test that fails below its first position only.
fails_below : (test : ℕ → Bool) (k last i : ℕ) → IsFrom test k last → test i ≡ true → k ≤ i
fails_below test k last i f y = elim (Bool-cases (ltb i k)) [
  | inl low ↦ absurd (ground (arith, y, f.fails i (ground (arith, low))))
  | inr high ↦ ground (arith, high)
]

holds_above :
    (test : ℕ → Bool) (k last i : ℕ) → IsFrom test k last → i ≤ last → test i ≡ false → i < k
holds_above test k last i f l differs = elim (Bool-cases (ltb i k)) [
  | inl low ↦ ground (arith, low)
  | inr high ↦ absurd (ground (arith, differs, f.holds i (ground (arith, high)) l))
]

narrow-IsAround :
    (test : ℕ → Bool) (k last n : ℕ) (r : Range)
    → IsFrom test k last
    → IsAround k last (suc n) r
    → IsAround k last n (narrow test r)
narrow-IsAround test k last n r f a =
    let mid = r.lo + (r.hi - r.lo) / 2 in
    elim (Bool-cases (ltb r.lo r.hi)) [
      | inl y ↦
          let open_range : r.lo < r.hi = ground (arith, y) in
          let half : mid < r.hi = omega (arith, open_range) in
          elim (Bool-cases (test mid)) [
            | inl found ↦
                rw (y, found)
                  (record {
                    above = a.above;
                    below = fails_below test k last mid f found;
                    inside = omega (arith, half, a.inside);
                    enough = omega (arith, half, a.enough);
                  })
            | inr differs ↦
                rw (y, differs)
                  (record {
                    above = omega (
                      arith,
                      holds_above test k last mid f (omega (arith, half, a.inside)) differs,
                    );
                    below = a.below;
                    inside = a.inside;
                    enough = omega (arith, half, a.enough);
                  })
          ]
      | inr m ↦
          let closed : r.hi ≤ r.lo = ground (arith, m) in
          rw m (record {
            above = a.above;
            below = a.below;
            inside = a.inside;
            enough = omega (arith, closed);
          })
    ]

pub search-IsFrom :
    (test : ℕ → Bool) (k last n : ℕ) (r : Range)
    → IsFrom test k last
    → IsAround k last n r
    → search test n r ≡ k
unfolding search
search-IsFrom test k last zero r f a = omega (arith, a.above, a.below, a.enough)
search-IsFrom test k last (suc n) r f a =
    search-IsFrom test k last n (narrow test r) f (narrow-IsAround test k last n r f a)

pub scan-IsFrom :
    (test : ℕ → Bool) (k last final n i : ℕ)
    → IsFrom test k last
    → k ≤ last
    → i ≤ k
    → k < i + n
    → scan test final n i ≡ k
unfolding scan
scan-IsFrom test k last final zero i f l h m = absurd (omega (arith, h, m))
scan-IsFrom test k last final (suc n) i f l h m = elim (Bool-cases (test i)) [
  | inl y ↦ rw y (omega (arith, fails_below test k last i f y, h))
  | inr differs ↦
      let over : i < k = holds_above test k last i f (omega (arith, h, l)) differs in
      rw differs (scan-IsFrom test k last final n (suc i) f l over (omega (arith, m)))
]

abbrev pub is_zero_at : FastIo → ℕ → Bool
is_zero_at io i = io.buf i == 0

-- `strlen` finds the end of the bytes that are not zero, wherever it is.
pub strlen_lem :
    (size k : ℕ) (io : FastIo)
    → IsFrom (is_zero_at io) k (capacity size - 1)
    → io.cur ≤ k
    → k < capacity size
    → strlen size io ≡ k
strlen_lem size k io f h m =
    search-IsFrom (is_zero_at io) k (capacity size - 1) (capacity size - 1 - io.cur)
      (record { lo = io.cur; hi = capacity size - 1 }) f
      (record {
        above = h;
        below = omega (arith, m);
        inside = omega arith;
        enough = omega (arith, h, m);
      })

blocks-IsFrom :
    (size k : ℕ) (io : FastIo)
    → IsFrom (is_zero_at io) k (capacity size - 1)
    → IsFrom (λ b. io.buf (b * 8) == 0) ((k + 7) / 8) ((capacity size - 1) / 8)
blocks-IsFrom size k io f = record {
  fails = λ b h. f.fails (b * 8) (omega (arith, h));
  holds = λ b h l. f.holds (b * 8) (omega (arith, h)) (omega (arith, l));
}

-- `strlen2` finds it too, where it lies before the last seven bytes of the buffer.
pub strlen2_lem :
    (size k : ℕ) (io : FastIo)
    → IsFrom (is_zero_at io) k (capacity size - 1)
    → io.cur ≤ k
    → k + 8 ≤ capacity size
    → strlen2 size io ≡ k
unfolding strlen2
strlen2_lem size k io f h m =
    let last = capacity size - 1 in
    let found =
      search-IsFrom (λ b. io.buf (b * 8) == 0) ((k + 7) / 8) (last / 8) (last / 8 - io.cur / 8)
        (record { lo = io.cur / 8; hi = last / 8 }) (blocks-IsFrom size k io f)
        (record {
          above = omega (arith, h);
          below = omega (arith, m);
          inside = omega arith;
          enough = omega arith;
        }) in
    rw found (
      scan-IsFrom (is_zero_at io) k last last 9 (scan_start ((k + 7) / 8)) f (omega (arith, m))
        (omega arith) (omega arith))

-- Where both find the end, they agree.
pub strlen2-strlen :
    (size k : ℕ) (io : FastIo)
    → IsFrom (is_zero_at io) k (capacity size - 1)
    → io.cur ≤ k
    → k + 8 ≤ capacity size
    → strlen2 size io ≡ strlen size io
strlen2-strlen size k io f h m =
    strlen2_lem size k io f h m ∙ sym (strlen_lem size k io f h (omega (arith, m)))
