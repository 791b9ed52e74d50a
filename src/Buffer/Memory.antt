-- ===== src/Buffer/Memory.antt =====
-- The storage of include/network/Buffer.h as a list: `memcpy`/`memmove` into it and
-- `vector::resize`, with what a slice of it holds afterwards.
use fluent_net.Prelude.{
  ℕ, zero, suc, ◌+◌, ◌-◌, ◌≤◌, ◌≡◌, refl, ap, List, [], ◌∷◌, ◌++◌, arith, length, take, drop,
  replicate, length-take, length-append, length-replicate, slice-append, take_all,
}

-- The bytes `ys` written from index `i` on; what would lie outside is dropped.
pub overwrite : List ℕ → ℕ → List ℕ → List ℕ
overwrite [] i ys = []
overwrite (x ∷ xs) zero [] = x ∷ xs
overwrite (x ∷ xs) zero (y ∷ ys) = y ∷ overwrite xs zero ys
overwrite (x ∷ xs) (suc i) ys = x ∷ overwrite xs i ys

pub resize : ℕ → List ℕ → List ℕ
resize n xs = take n xs ++ replicate (n - length xs) 0

pub length-overwrite : (xs : List ℕ) (i : ℕ) (ys : List ℕ) → length (overwrite xs i ys) ≡ length xs
unfolding overwrite
length-overwrite [] i ys = refl
length-overwrite (x ∷ xs) zero [] = refl
length-overwrite (x ∷ xs) zero (y ∷ ys) = ap suc (length-overwrite xs zero ys)
length-overwrite (x ∷ xs) (suc i) ys = ap suc (length-overwrite xs i ys)

pub length-resize : (n : ℕ) (xs : List ℕ) → length (resize n xs) ≡ n
unfolding resize
length-resize n xs = omega (
  arith,
  length-append (take n xs) (replicate (n - length xs) 0),
  length-take n xs,
  length-replicate {A = ℕ} (n - length xs) 0,
)

-- A slice and the bytes written right behind it make up the longer slice.
pub slice-overwrite :
    (xs ys : List ℕ) (i n w m : ℕ)
    → w ≡ i + n
    → m ≡ n + length ys
    → w + length ys ≤ length xs
    → take m (drop i (overwrite xs w ys)) ≡ take n (drop i xs) ++ ys
unfolding overwrite
slice-overwrite [] [] i n w m e f h =
    let ei : i ≡ 0 = omega arith in
    let en : n ≡ 0 = omega arith in let em : m ≡ 0 = omega arith in rw (ei, en, em)
slice-overwrite [] (y ∷ ys) i n w m e f h = absurd (omega arith)
slice-overwrite (x ∷ xs) ys (suc i) n zero m e f h = absurd (omega arith)
slice-overwrite (x ∷ xs) ys (suc i) n (suc w) m e f h =
    slice-overwrite xs ys i n w m (omega arith) f (omega arith)
slice-overwrite (x ∷ xs) ys zero (suc n) zero m e f h = absurd (omega arith)
slice-overwrite (x ∷ xs) ys zero (suc n) (suc w) zero e f h = absurd (omega arith)
slice-overwrite (x ∷ xs) ys zero (suc n) (suc w) (suc m) e f h =
    ap (◌∷◌ x) (slice-overwrite xs ys zero n w m (omega arith) (omega arith) (omega arith))
slice-overwrite (x ∷ xs) ys zero zero (suc w) m e f h = absurd (omega arith)
slice-overwrite (x ∷ xs) [] zero zero zero m e f h = let em : m ≡ 0 = omega arith in rw em
slice-overwrite (x ∷ xs) (y ∷ ys) zero zero zero zero e f h = absurd (omega arith)
slice-overwrite (x ∷ xs) (y ∷ ys) zero zero zero (suc m) e f h =
    ap (◌∷◌ y) (slice-overwrite xs ys zero zero zero m (omega arith) (omega arith) (omega arith))

pub slice-resize :
    (xs : List ℕ) (i n k : ℕ)
    → i + n ≤ length xs
    → length xs ≤ k
    → take n (drop i (resize k xs)) ≡ take n (drop i xs)
unfolding resize
slice-resize xs i n k h g = rw (take_all k xs g) (slice-append i n xs _ h)
