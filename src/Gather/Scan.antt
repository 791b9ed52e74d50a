-- ===== src/Gather/Scan.antt =====
-- include/future/FuturesInternal.h: what one poll of whenN finds.
use fluent_net.Prelude.{
  get_elem?, ℕ, zero, suc, ◌+◌, ◌-◌, Bool, false, Option, none, some, List, [], ◌∷◌, ◌++◌, ◌≡◌,
  refl, sym, ap, ◌∙◌, inl, inr, length, arith, ◌≢◌, All, Option-cases, length-append, append-nil,
  append_assoc, min, leb,
}
use mathlib.Core.List.{Perm}
use mathlib.Core.List.Perm
use fluent_net.Futures.{ControlBlock}
use fluent_net.Gather.{Query, Gathering, answer, scan, gather}

abbrev pub indices_of : List Query → List ℕ
indices_of [] = []
indices_of (q ∷ qs) = q.index ∷ indices_of qs

abbrev pub result_indices : {T : Type 0} → List (ℕ × T) → List ℕ
result_indices [] = []
result_indices (x ∷ xs) = x.0 ∷ result_indices xs

pub result_indices-append :
    {T : Type 0} (xs ys : List (ℕ × T))
    → result_indices (xs ++ ys) ≡ result_indices xs ++ result_indices ys
result_indices-append [] ys = refl
result_indices-append (x ∷ xs) ys = ap (◌∷◌ x.0) (result_indices-append xs ys)

middle-Perm : {a : ℕ} (xs ys : List ℕ) → Perm (xs ++ (a ∷ ys)) (a ∷ (xs ++ ys))
middle-Perm [] ys = Perm.rfl
middle-Perm {a} (x ∷ xs) ys =
    Perm.trans (Perm.cons x (middle-Perm xs ys)) (Perm.swap a x (xs ++ ys))

module _ {T A : Type 0} (blocks : List (ControlBlock T A)) (cond : T → Bool) where
  -- How many of the queries have an answer.
  abbrev one_if : Option T → ℕ
  one_if none = 0
  one_if (some v) = 1

  abbrev pub answers : List Query → ℕ
  answers [] = 0
  answers (q ∷ qs) = one_if (answer blocks cond q) + answers qs

  scan_counts :
      (qs rejected : List Query) (rs : List (ℕ × T)) (n : ℕ)
      → ((scan blocks cond qs rejected rs n).remain ≡ n - answers qs)
        × (length (scan blocks cond qs rejected rs n).results ≡ length rs + min n (answers qs))
  unfolding scan
  scan_counts [] rejected rs zero = (omega arith, omega arith)
  scan_counts (q ∷ qs) rejected rs zero = (omega arith, omega arith)
  scan_counts [] rejected rs (suc n) = (omega arith, omega arith)
  scan_counts (q ∷ qs) rejected rs (suc n) = elim (Option-cases (answer blocks cond q)) [
    | inl e ↦
        let (left, found) = scan_counts qs (q ∷ rejected) rs (suc n) in
        rw (scan, e) (omega (arith, left), omega (arith, found))
    | inr (v, e) ↦
        let (left, found) = scan_counts qs rejected (rs ++ (q.index, v) ∷ []) n in
        rw (scan, e)
          (omega (arith, left), omega (arith, found, length-append rs ((q.index, v) ∷ [])))
  ]

  -- One poll of whenN: it answers true exactly if enough of the futures that are still asked have a
  -- value that the condition accepts, and it takes as many of them as are asked for, no more.
  pub gather_counts :
      (g : Gathering T)
      → ((gather blocks cond g).0 ≡ leb g.remain (answers g.queries))
        × (length (gather blocks cond g).1.results
            ≡ length g.results + min g.remain (answers g.queries))
        × (length (gather blocks cond g).1.results + (gather blocks cond g).1.remain
            ≡ length g.results + g.remain)
  unfolding gather
  gather_counts g =
      let (left, found) = scan_counts g.queries [] g.results g.remain in
      (ground (arith, left), found, omega (arith, left, found))

  -- A result is the value of one of the queries, which has an answer.
  abbrev pub Answered : List Query → ℕ × T → Type 0
  Answered qs x =
      (j : ℕ) × (q : Query) × (get_elem? qs j ≡ some q)
      × (q.index ≡ x.0)
      × (answer blocks cond q ≡ some x.1)

  asked_later :
      (q : Query) (qs : List Query) (rs : List (ℕ × T))
      → All (Answered qs) rs
      → All (Answered (q ∷ qs)) rs
  asked_later q qs [] h = tt
  asked_later q qs (x ∷ rs) ((j, p, at, index, value), h) =
      ((suc j, p, at, index, value), asked_later q qs rs h)

  -- The results so far, and answered ones behind them.
  abbrev pub Adds : List Query → List (ℕ × T) → List (ℕ × T) → Type 0
  Adds qs rs rs' = (more : List (ℕ × T)) × (rs' ≡ rs ++ more) × All (Answered qs) more

  scan-Adds :
      (qs rejected : List Query) (rs : List (ℕ × T)) (n : ℕ)
      → Adds qs rs (scan blocks cond qs rejected rs n).results
  unfolding scan
  scan-Adds [] rejected rs zero = ([], sym (append-nil rs), tt)
  scan-Adds (q ∷ qs) rejected rs zero = ([], sym (append-nil rs), tt)
  scan-Adds [] rejected rs (suc n) = ([], sym (append-nil rs), tt)
  scan-Adds (q ∷ qs) rejected rs (suc n) = elim (Option-cases (answer blocks cond q)) [
    | inl e ↦
        let (more, same, good) = scan-Adds qs (q ∷ rejected) rs (suc n) in
        rw (scan, e) (more, same, asked_later q qs more good)
    | inr (v, e) ↦
        let (more, same, good) = scan-Adds qs rejected (rs ++ (q.index, v) ∷ []) n in
        rw (scan, e)
          (
            (q.index, v) ∷ more,
            same ∙ append_assoc rs ((q.index, v) ∷ []) more,
            ((0, q, refl, refl, e), asked_later q qs more good),
          )
  ]

  scan_keeps :
      (qs rejected : List Query) (rs : List (ℕ × T)) (n : ℕ)
      → (scan blocks cond qs rejected rs n).remain ≢ 0
      → Perm
          (result_indices (scan blocks cond qs rejected rs n).results
            ++ indices_of (scan blocks cond qs rejected rs n).queries)
          (result_indices rs ++ (indices_of rejected ++ indices_of qs))
  unfolding scan
  scan_keeps [] rejected rs zero h = absurd (h refl)
  scan_keeps (q ∷ qs) rejected rs zero h = absurd (h refl)
  scan_keeps [] rejected rs (suc n) h = rw (append-nil (indices_of rejected)) Perm.rfl
  scan_keeps (q ∷ qs) rejected rs (suc n) h = elim (Option-cases (answer blocks cond q)) [
    | inl e ↦
        rw (scan, e)
          (Perm.trans (scan_keeps qs (q ∷ rejected) rs (suc n) (rw (scan, e) at h)) (
            Perm.append_left (result_indices rs)
              (Perm.symm (middle-Perm (indices_of rejected) (indices_of qs)))))
    | inr (v, e) ↦
        rw (scan, e)
          (Perm.trans (scan_keeps qs rejected (rs ++ (q.index, v) ∷ []) n (rw (scan, e) at h)) (
            rw
              (
                result_indices-append rs ((q.index, v) ∷ []),
                append_assoc (result_indices rs) (q.index ∷ [])
                    (indices_of rejected ++ indices_of qs),
              )
              (Perm.append_left (result_indices rs)
                (Perm.symm (middle-Perm (indices_of rejected) (indices_of qs))))))
  ]

  -- The results of a poll are those of the polls before and, behind them, values that the condition
  -- accepts of queries of this poll that have one; and as long as some are still asked for, every future is either
  -- among the results or asked again, once.
  pub gather_keeps :
      (g : Gathering T)
      → Adds g.queries g.results (gather blocks cond g).1.results
        × ((gather blocks cond g).0 ≡ false
            → Perm
                (result_indices (gather blocks cond g).1.results
                  ++ indices_of (gather blocks cond g).1.queries)
                (result_indices g.results ++ indices_of g.queries))
  unfolding gather
  gather_keeps g = (
    scan-Adds g.queries [] g.results g.remain,
    λ h. scan_keeps g.queries [] g.results g.remain (ground arith),
  )
