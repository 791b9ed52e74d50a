-- ===== src/Strings/Pieces.antt =====
-- include/utils/StringUtils.h, `split`: the pieces are where the text is.
use fluent_net.Prelude.{
  ℕ, zero, suc, ◌≤◌, ◌<◌, Bool, false, not, ◌&&◌, ◌||◌, List, [], ◌∷◌, ◌≡◌, refl, ap, ◌∙◌, inl, inr,
  if◌then◌else◌, ◌==◌, ltb, leb, length, arith, Bool-cases,
}
use fluent_net.Strings.{skip_pivots, skip_word, split_rounds, split}

-- The index lies in the piece, in one of the pieces.
abbrev pub inside : ℕ × ℕ → ℕ → Bool
inside (lo, hi) i = leb lo i && ltb i hi

abbrev pub covered : List (ℕ × ℕ) → ℕ → Bool
covered [] i = false
covered (p ∷ ps) i = inside p i || covered ps i

-- The pieces are not empty, they begin at `b` or behind, and one ends before the next begins.
abbrev pub InOrder : ℕ → List (ℕ × ℕ) → Type 0
InOrder b [] = Unit
InOrder b (p ∷ ps) = (b ≤ p.0) × (p.0 < p.1) × InOrder p.1 ps

-- An empty piece covers nothing.
cover_step :
    (lo hi : ℕ) (ps : List (ℕ × ℕ)) (i : ℕ)
    → covered (if ltb lo hi then (lo, hi) ∷ ps else ps) i ≡ (inside (lo, hi) i || covered ps i)
cover_step lo hi ps i = elim (Bool-cases (ltb lo hi)) [
  | inl t ↦ rw t refl
  | inr f ↦ rw f (ground arith)
]

module _ (pivot : ℕ) where
  -- The text from `pos` on has a character at `i`, and it is not the pivot.
  abbrev pub is_text : List ℕ → ℕ → ℕ → Bool
  is_text [] pos i = false
  is_text (c ∷ cs) pos i = ((i == pos) && not (c == pivot)) || is_text cs (suc pos) i

  text_behind : (s : List ℕ) (pos i : ℕ) → i < pos → is_text s pos i ≡ false
  text_behind [] pos i h = refl
  text_behind (c ∷ cs) pos i h = ground (arith, text_behind cs (suc pos) i (omega arith))

  pivots_are_none :
      (s : List ℕ) (pos i : ℕ)
      → is_text (skip_pivots pivot s pos).0 (skip_pivots pivot s pos).1 i ≡ is_text s pos i
  unfolding skip_pivots
  pivots_are_none [] pos i = refl
  pivots_are_none (c ∷ cs) pos i = elim (Bool-cases (c == pivot)) [
    | inl y ↦ rw y (ground (arith, pivots_are_none cs (suc pos) i))
    | inr n ↦ ground arith
  ]

  word_goes_on : (s : List ℕ) (pos : ℕ) → pos ≤ (skip_word pivot s pos).1
  unfolding skip_word
  word_goes_on [] pos = omega arith
  word_goes_on (c ∷ cs) pos = ground (arith, word_goes_on cs (suc pos))

  word_shrinks : (s : List ℕ) (pos : ℕ) → length (skip_word pivot s pos).0 ≤ length s
  unfolding skip_word
  word_shrinks [] pos = omega arith
  word_shrinks (c ∷ cs) pos = ground (arith, word_shrinks cs (suc pos))

  pivots_go_on : (s : List ℕ) (pos : ℕ) → pos ≤ (skip_pivots pivot s pos).1
  unfolding skip_pivots
  pivots_go_on [] pos = omega arith
  pivots_go_on (c ∷ cs) pos = ground (arith, pivots_go_on cs (suc pos))

  pivots_shrink : (s : List ℕ) (pos : ℕ) → length (skip_pivots pivot s pos).0 ≤ length s
  unfolding skip_pivots
  pivots_shrink [] pos = omega arith
  pivots_shrink (c ∷ cs) pos = ground (arith, pivots_shrink cs (suc pos))

  -- A round takes one character at least.
  round_shrinks :
      (c : ℕ) (cs : List ℕ) (pos : ℕ)
      → (let (word, lo) = skip_pivots pivot (c ∷ cs) pos in
          length (skip_word pivot word lo).0 ≤ length cs)
  unfolding skip_pivots skip_word
  round_shrinks c cs pos = elim (Bool-cases (c == pivot)) [
    | inl y ↦ rw y (
        let (word, lo) = skip_pivots pivot cs (suc pos) in
        ground (arith, word_shrinks word lo, pivots_shrink cs (suc pos)))
    | inr n ↦ ground (arith, word_shrinks cs (suc pos))
  ]

  word_is_text :
      (s : List ℕ) (pos i : ℕ)
      → (inside (pos, (skip_word pivot s pos).1) i
          || is_text (skip_word pivot s pos).0 (skip_word pivot s pos).1 i)
        ≡ is_text s pos i
  unfolding skip_word
  word_is_text [] pos i = ground arith
  word_is_text (c ∷ cs) pos i = elim (Bool-cases (c == pivot)) [
    | inl y ↦ ground arith
    | inr n ↦ rw n (ground (arith, word_is_text cs (suc pos) i, word_goes_on cs (suc pos)))
  ]

  rounds_cover :
      (n : ℕ) (s : List ℕ) (pos i : ℕ)
      → length s ≤ n
      → covered (split_rounds pivot n s pos) i ≡ is_text s pos i
  unfolding split_rounds
  rounds_cover zero [] pos i h = refl
  rounds_cover zero (c ∷ cs) pos i h = absurd (omega arith)
  rounds_cover (suc n) [] pos i h = refl
  rounds_cover (suc n) (c ∷ cs) pos i h =
      let (word, lo) = skip_pivots pivot (c ∷ cs) pos in
      let (rest, hi) = skip_word pivot word lo in
      let later = rounds_cover n rest hi i (omega (arith, round_shrinks c cs pos)) in
      let here = word_is_text word lo i ∙ pivots_are_none (c ∷ cs) pos i in
      cover_step lo hi (split_rounds pivot n rest hi) i
      ∙ ap (λ x. inside (lo, hi) i || x) later
      ∙ here

  rounds-InOrder :
      (n : ℕ) (s : List ℕ) (pos b : ℕ) → b ≤ pos → InOrder b (split_rounds pivot n s pos)
  unfolding split_rounds
  rounds-InOrder zero s pos b h = tt
  rounds-InOrder (suc n) [] pos b h = tt
  rounds-InOrder (suc n) (c ∷ cs) pos b h =
      let (word, lo) = skip_pivots pivot (c ∷ cs) pos in
      let (rest, hi) = skip_word pivot word lo in
      elim (Bool-cases (ltb lo hi)) [
        | inl t ↦ rw t (
          omega (arith, pivots_go_on (c ∷ cs) pos),
          ground (arith, t),
          rounds-InOrder n rest hi hi (omega arith),
        )
        | inr f ↦ rw f (
            rounds-InOrder n rest hi b
              (omega (arith, pivots_go_on (c ∷ cs) pos, word_goes_on word lo)))
      ]

  -- `split` on any text: a character is in one of the pieces exactly if it is not the pivot, and the
  -- pieces are not empty and stand in the order of the text.
  pub split_covers :
      (str : List ℕ)
      → ((i : ℕ) → covered (split pivot str) i ≡ is_text str 0 i) × InOrder 0 (split pivot str)
  unfolding split
  split_covers str = (
    λ i. rounds_cover (length str) str 0 i (omega arith),
    rounds-InOrder (length str) str 0 0 (omega arith),
  )
