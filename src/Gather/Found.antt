-- ===== src/Gather/Found.antt =====
-- include/future/FuturesInternal.h: which results a scan of whenN stores, and what the sort by the index
-- makes of them.
use fluent_net.Prelude.{
  ℕ, zero, suc, ◌-◌, ◌<◌, Bool, false, ◌&&◌, get_elem?, if◌then◌else◌, Option, none, some, List, [],
  ◌∷◌, ◌++◌, ◌≡◌, refl, sym, ap, ◌∙◌, inl, inr, length, arith, leb, All, All-append, Option-cases,
  append-nil, append_assoc, take, drop, take-append-drop, take_all, length-append, length-drop,
  take-length-append, Bool-cases,
}
use fluent_net.Futures.{ControlBlock}
use fluent_net.Gather.Scan.{answers}
use fluent_net.Gather.{
  Query, has_value, accept, answer, scan, gather, collect_from, when_n, insert_result, sort_results,
}

module _ {A : Type 0} where
  abbrev pub reverse : List A → List A
  reverse [] = []
  reverse (x ∷ xs) = reverse xs ++ x ∷ []

  reverse-append : (xs ys : List A) → reverse (xs ++ ys) ≡ reverse ys ++ reverse xs
  reverse-append [] ys = sym (append-nil (reverse ys))
  reverse-append (x ∷ xs) ys =
      ap (λ zs. zs ++ x ∷ []) (reverse-append xs ys)
      ∙ append_assoc (reverse ys) (reverse xs) (x ∷ [])

  reverse-reverse : (xs : List A) → reverse (reverse xs) ≡ xs
  reverse-reverse [] = refl
  reverse-reverse (x ∷ xs) = reverse-append (reverse xs) (x ∷ []) ∙ ap (◌∷◌ x) (reverse-reverse xs)

  length-reverse : (xs : List A) → length (reverse xs) ≡ length xs
  length-reverse [] = refl
  length-reverse (x ∷ xs) = omega (arith, length-append (reverse xs) (x ∷ []), length-reverse xs)

  -- The last `n` of a list, or all of it.
  abbrev pub take_last : ℕ → List A → List A
  take_last n xs = drop (length xs - n) xs

  reverse-take-reverse : (n : ℕ) (xs : List A) → reverse (take n (reverse xs)) ≡ take_last n xs
  reverse-take-reverse n xs = elim (Bool-cases (leb n (length xs))) [
    | inl y ↦
        let m = length xs - n in
        let split : reverse xs ≡ reverse (drop m xs) ++ reverse (take m xs) =
          ap reverse (sym (take-append-drop m xs)) ∙ reverse-append (take m xs) (drop m xs) in
        let size : n ≡ length (reverse (drop m xs)) =
          ground (arith, y, length-reverse (drop m xs), length-drop m xs) in
        ap (λ zs. reverse (take n zs)) split
        ∙ (ap (λ k. reverse (take k (reverse (drop m xs) ++ reverse (take m xs)))) size
            ∙ (ap reverse (take-length-append (reverse (drop m xs)) (reverse (take m xs)))
                ∙ reverse-reverse (drop m xs)))
    | inr f ↦
        let none_left : 0 ≡ length xs - n = ground (arith, f) in
        ap reverse (take_all n (reverse xs) (ground (arith, f, length-reverse xs)))
        ∙ (reverse-reverse xs ∙ ap (λ k. drop k xs) none_left)
  ]

module _ {T : Type 0} where
  abbrev Below : ℕ → ℕ × T → Type 0
  Below i x = x.0 < i

  abbrev Decreasing : List (ℕ × T) → Type 0
  Decreasing [] = Unit
  Decreasing (x ∷ xs) = All (Below x.0) xs × Decreasing xs

  All-take : (i n : ℕ) (xs : List (ℕ × T)) → All (Below i) xs → All (Below i) (take n xs)
  All-take i zero xs h = tt
  All-take i (suc n) [] h = tt
  All-take i (suc n) (x ∷ xs) (h, hs) = (h, All-take i n xs hs)

  take-Decreasing : (n : ℕ) (xs : List (ℕ × T)) → Decreasing xs → Decreasing (take n xs)
  take-Decreasing zero xs d = tt
  take-Decreasing (suc n) [] d = tt
  take-Decreasing (suc n) (x ∷ xs) (h, d) = (All-take x.0 n xs h, take-Decreasing n xs d)

  All-reverse : (i : ℕ) (xs : List (ℕ × T)) → All (Below i) xs → All (Below i) (reverse xs)
  All-reverse i [] h = tt
  All-reverse i (x ∷ xs) (h, hs) =
      All-append (Below i) (reverse xs) (x ∷ []) (All-reverse i xs hs) (h, tt)

  -- A result behind all others goes to the end.
  insert_last :
      (x : ℕ × T) (xs : List (ℕ × T)) → All (Below x.0) xs → insert_result x xs ≡ xs ++ x ∷ []
  insert_last x [] h = refl
  insert_last x (y ∷ ys) (h, hs) =
      let behind : leb x.0 y.0 ≡ false = ground (arith, h) in
      rw behind (ap (◌∷◌ y) (insert_last x ys hs))

  sort_results-reverse : (xs : List (ℕ × T)) → Decreasing xs → sort_results xs ≡ reverse xs
  unfolding sort_results
  sort_results-reverse [] d = refl
  sort_results-reverse (x ∷ xs) (h, d) =
      ap (insert_result x) (sort_results-reverse xs d)
      ∙ insert_last x (reverse xs) (All-reverse x.0 xs h)

module _ {T A : Type 0} (blocks : List (ControlBlock T A)) (cond : T → Bool) where
  abbrev answered : ℕ → Option T → List (ℕ × T) → List (ℕ × T)
  answered i none rs = rs
  answered i (some v) rs = (i, v) ∷ rs

  -- The queries that have an answer, with it.
  abbrev found : List Query → List (ℕ × T)
  found [] = []
  found (q ∷ qs) = answered q.index (answer blocks cond q) (found qs)

  -- The value of a shared state that has one which the condition accepts.
  abbrev pub accepted_value : Option (ControlBlock T A) → Option T
  accepted_value none = none
  accepted_value (some b) = if has_value b.state && cond b.value then some b.value else none

  both_pass :
      (b : ControlBlock T A)
      → (if has_value b.state then accept blocks cond b.value else none) ≡ accepted_value (some b)
  both_pass b = ground arith

  answer_lem : (q : Query) → answer blocks cond q ≡ accepted_value (get_elem? blocks q.block)
  unfolding answer
  answer_lem q = elim (Option-cases (get_elem? blocks q.block)) [
    | inl e ↦ rw (answer, e) refl
    | inr (b, e) ↦ rw (answer, e) (both_pass b)
  ]

  -- The futures whose value the condition accepts, with their numbers from `i` on and their values.
  abbrev pub accepted_from : ℕ → List ℕ → List (ℕ × T)
  accepted_from i [] = []
  accepted_from i (b ∷ bs) =
      answered i (accepted_value (get_elem? blocks b)) (accepted_from (suc i) bs)

  scan-found :
      (qs rejected : List Query) (rs : List (ℕ × T)) (n : ℕ)
      → (scan blocks cond qs rejected rs n).results ≡ rs ++ take n (found qs)
  unfolding scan
  scan-found [] rejected rs zero = sym (append-nil rs)
  scan-found (q ∷ qs) rejected rs zero = sym (append-nil rs)
  scan-found [] rejected rs (suc n) = sym (append-nil rs)
  scan-found (q ∷ qs) rejected rs (suc n) = elim (Option-cases (answer blocks cond q)) [
    | inl e ↦ rw (scan, e) (scan-found qs (q ∷ rejected) rs (suc n))
    | inr (v, e) ↦
        rw (scan, e)
          (scan-found qs rejected (rs ++ (q.index, v) ∷ []) n
            ∙ append_assoc rs ((q.index, v) ∷ []) (take n (found qs)))
  ]

  abbrev IsDown : ℕ → List Query → Type 0
  IsDown i qs = All (Below i) (found qs) × Decreasing (found qs)

  higher : (i : ℕ) (rs : List (ℕ × T)) → All (Below i) rs → All (Below (suc i)) rs
  higher i [] h = tt
  higher i (r ∷ rs) (h, hs) = (omega (arith, h), higher i rs hs)

  answered-IsDown :
      (i : ℕ) (a : Option T) (rs : List (ℕ × T))
      → All (Below i) rs
      → Decreasing rs
      → All (Below (suc i)) (answered i a rs) × Decreasing (answered i a rs)
  answered-IsDown i none rs h d = (higher i rs h, d)
  answered-IsDown i (some v) rs h d = ((omega arith, higher i rs h), (h, d))

  collect-Decreasing :
      (i : ℕ) (keys : List ℕ) (qs : List Query)
      → IsDown i qs
      → Decreasing (found (collect_from i keys qs))
  collect-Decreasing i [] qs (h, d) = d
  collect-Decreasing i (b ∷ bs) qs (h, d) =
      let q : Query = record { index = i; block = b } in
      collect-Decreasing (suc i) bs (q ∷ qs)
        (answered-IsDown i (answer blocks cond q) (found qs) h d)

  reverse-answered :
      (i : ℕ) (a : Option T) (later before : List (ℕ × T))
      → reverse later ++ answered i a before ≡ reverse (answered i a later) ++ before
  reverse-answered i none later before = refl
  reverse-answered i (some v) later before = sym (append_assoc (reverse later) ((i, v) ∷ []) before)

  found-collect_from :
      (i : ℕ) (keys : List ℕ) (qs : List Query)
      → found (collect_from i keys qs) ≡ reverse (accepted_from i keys) ++ found qs
  found-collect_from i [] qs = refl
  found-collect_from i (b ∷ bs) qs =
      let q : Query = record { index = i; block = b } in
      found-collect_from (suc i) bs (q ∷ qs)
      ∙ (ap (λ a. reverse (accepted_from (suc i) bs) ++ answered i a (found qs)) (answer_lem q)
          ∙ reverse-answered i (accepted_value (get_elem? blocks b)) (accepted_from (suc i) bs)
              (found qs))

  answers-found : (qs : List Query) → answers blocks cond qs ≡ length (found qs)
  answers-found [] = refl
  answers-found (q ∷ qs) = elim (Option-cases (answer blocks cond q)) [
    | inl e ↦ rw e (omega (arith, answers-found qs))
    | inr (v, e) ↦ rw e (omega (arith, answers-found qs))
  ]

  pub answers-accepted_from :
      (keys : List ℕ) → answers blocks cond (collect_from 0 keys []) ≡ length (accepted_from 0 keys)
  answers-accepted_from keys =
      let accepted = accepted_from 0 keys in
      answers-found (collect_from 0 keys [])
      ∙ (ap length (found-collect_from 0 keys [] ∙ append-nil (reverse accepted))
          ∙ length-reverse accepted)

  -- The sorted results of the first poll.
  pub sort_results-gather :
      (n : ℕ) (keys : List ℕ)
      → sort_results (gather blocks cond (when_n n keys)).1.results
        ≡ take_last n (accepted_from 0 keys)
  unfolding gather
  sort_results-gather n keys =
      let qs = collect_from 0 keys [] in
      let accepted = accepted_from 0 keys in
      let all : found qs ≡ reverse accepted =
        found-collect_from 0 keys [] ∙ append-nil (reverse accepted) in
      ap sort_results (scan-found qs [] [] n)
      ∙ (sort_results-reverse (take n (found qs))
            (take-Decreasing n (found qs) (collect-Decreasing 0 keys [] (tt, tt)))
          ∙ (ap (λ rs. reverse (take n rs)) all ∙ reverse-take-reverse n accepted))
