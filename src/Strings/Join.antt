-- ===== src/Strings/Join.antt =====
-- include/utils/StringUtils.h, `split`: it takes apart what was joined.
use fluent_net.Prelude.{
  ℕ, zero, suc, ◌+◌, ◌-◌, ◌≤◌, ◌<◌, true, List, [], ◌∷◌, ◌++◌, ◌≡◌, refl, sym, ap, ap₂, ◌∙◌, arith,
  append_assoc, ltb, length, take, drop, length-append, Lacks, take-length-append,
  drop-length-append, same_number,
}
use mathlib.Core.List.{map}
use fluent_net.Strings.{skip_pivots, skip_word, split_rounds, split, substr}

pub substr-at :
    (before word tail : List ℕ) (lo hi : ℕ)
    → lo ≡ length before
    → hi ≡ lo + length word
    → substr (before ++ (word ++ tail)) (lo, hi) ≡ word
substr-at before word tail lo hi e g =
    let size : hi - lo ≡ length word = omega (arith, g) in
    ap (λ k. take (hi - lo) (drop k (before ++ (word ++ tail)))) e
    ∙ ap (take (hi - lo)) (drop-length-append before (word ++ tail))
    ∙ ap (λ k. take k (word ++ tail)) size
    ∙ take-length-append word tail

module _ (pivot : ℕ) where
  abbrev pub IsWord : List ℕ → Type 0
  IsWord word = (0 < length word) × Lacks pivot word

  -- The first word, and the others behind a pivot each.
  abbrev pub joined_rest : List (List ℕ) → List ℕ
  joined_rest [] = []
  joined_rest (word ∷ words) = pivot ∷ (word ++ joined_rest words)

  abbrev pub AreWords : List (List ℕ) → Type 0
  AreWords [] = Unit
  AreWords (word ∷ words) = IsWord word × AreWords words

  skip_word-rest :
      (words : List (List ℕ)) (pos : ℕ)
      → skip_word pivot (joined_rest words) pos ≡ (joined_rest words, pos)
  unfolding skip_word
  skip_word-rest [] pos = refl
  skip_word-rest (word ∷ words) pos = rw (same_number pivot) refl

  skip_word-word :
      (word : List ℕ) (words : List (List ℕ)) (pos : ℕ)
      → Lacks pivot word
      → skip_word pivot (word ++ joined_rest words) pos ≡ (joined_rest words, pos + length word)
  unfolding skip_word
  skip_word-word [] words pos h =
      let e : pos ≡ pos + 0 = omega arith in
      skip_word-rest words pos ∙ ap (λ n. (joined_rest words, n)) e
  skip_word-word (c ∷ cs) words pos (h, hs) =
      let e : suc pos + length cs ≡ pos + suc (length cs) = omega arith in
      rw h (skip_word-word cs words (suc pos) hs ∙ ap (λ n. (joined_rest words, n)) e)

  -- One round: a word behind at most one pivot.
  round-word :
      (n c pos : ℕ) (cs : List ℕ) (words : List (List ℕ))
      → Lacks pivot (c ∷ cs)
      → split_rounds pivot (suc n) (c ∷ (cs ++ joined_rest words)) pos
        ≡ (pos, pos + suc (length cs))
          ∷ split_rounds pivot n (joined_rest words) (pos + suc (length cs))
  unfolding split_rounds skip_pivots
  round-word n c pos cs words (h, hs) =
      let some_char : ltb pos (pos + suc (length cs)) ≡ true = ground arith in
      rw h (rw (skip_word-word (c ∷ cs) words pos (h, hs)) (rw some_char refl))

  round-pivot :
      (n c pos : ℕ) (cs : List ℕ) (words : List (List ℕ))
      → Lacks pivot (c ∷ cs)
      → split_rounds pivot (suc n) (pivot ∷ c ∷ (cs ++ joined_rest words)) pos
        ≡ (suc pos, suc pos + suc (length cs))
          ∷ split_rounds pivot n (joined_rest words) (suc pos + suc (length cs))
  unfolding split_rounds skip_pivots
  round-pivot n c pos cs words (h, hs) =
      let some_char : ltb (suc pos) (suc pos + suc (length cs)) ≡ true = ground arith in
      rw (same_number pivot)
        (rw h (rw (skip_word-word (c ∷ cs) words (suc pos) (h, hs)) (rw some_char refl)))

  rest-split :
      (words : List (List ℕ)) (before : List ℕ) (n pos : ℕ)
      → AreWords words
      → pos ≡ length before
      → length (joined_rest words) ≤ n
      → map (substr (before ++ joined_rest words)) (split_rounds pivot n (joined_rest words) pos)
        ≡ words
  unfolding split_rounds
  rest-split [] before zero pos h e k = refl
  rest-split [] before (suc n) pos h e k = refl
  rest-split (word ∷ words) before zero pos h e k = absurd (omega arith)
  rest-split ([] ∷ words) before (suc n) pos h e k = absurd (omega (arith, h.0.0))
  rest-split ((c ∷ cs) ∷ words) before (suc n) pos ((hc, hw), hs) e k =
      let word : List ℕ = c ∷ cs in
      let tail = joined_rest words in
      let s = before ++ pivot ∷ (word ++ tail) in
      let before' = before ++ pivot ∷ word in
      let p : ℕ × ℕ = (suc pos, suc pos + suc (length cs)) in
      let later = split_rounds pivot n tail p.1 in
      let shape : s ≡ before' ++ tail = sym (append_assoc before (pivot ∷ word) tail) in
      let shape' : s ≡ (before ++ pivot ∷ []) ++ (word ++ tail) =
        sym (append_assoc before (pivot ∷ []) (word ++ tail)) in
      let place : p.1 ≡ length before' = omega (arith, length-append before (pivot ∷ word), e) in
      let place' : p.0 ≡ length (before ++ pivot ∷ []) =
        omega (arith, length-append before (pivot ∷ []), e) in
      let first : substr s p ≡ word =
        ap (λ t. substr t p) shape'
        ∙ substr-at (before ++ pivot ∷ []) word tail p.0 p.1 place' refl in
      let others : map (substr s) later ≡ words =
        ap (λ t. map (substr t) later) shape
        ∙ rest-split words before' n p.1 hs place (omega (arith, length-append word tail, k)) in
      ap (map (substr s)) (round-pivot n c pos cs words hw) ∙ ap₂ ◌∷◌ first others

  -- The words with one pivot between them.
  abbrev pub join : List (List ℕ) → List ℕ
  join [] = []
  join (word ∷ words) = word ++ joined_rest words

  -- `split` of words that were joined by the pivot gives the places of just these words.
  pub split-join :
      (words : List (List ℕ))
      → AreWords words
      → map (substr (join words)) (split pivot (join words)) ≡ words
  unfolding split split_rounds
  split-join [] h = refl
  split-join ([] ∷ words) h = absurd (omega (arith, h.0.0))
  split-join ((c ∷ cs) ∷ words) ((hc, hw), hs) =
      let word : List ℕ = c ∷ cs in
      let tail = joined_rest words in
      let hi = 0 + suc (length cs) in
      let later = split_rounds pivot (length (cs ++ tail)) tail hi in
      let first : substr (word ++ tail) (0, hi) ≡ word = substr-at [] word tail 0 hi refl refl in
      let others =
        rest-split words word (length (cs ++ tail)) hi hs (omega arith)
          (omega (arith, length-append cs tail)) in
      ap (map (substr (word ++ tail))) (round-word (length (cs ++ tail)) c 0 cs words hw)
      ∙ ap₂ ◌∷◌ first others
