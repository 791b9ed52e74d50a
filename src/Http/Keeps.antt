-- ===== src/Http/Keeps.antt =====
-- examples/http/Parser.h, `parseNextLine`, on any bytes: it leaves the headers alone, and the ends of
-- the literals it is compared with.
use fluent_net.Prelude.{
  ℕ, zero, suc, ◌-◌, Bool, ◌&&◌, ◌||◌, List, [], ◌∷◌, ◌≡◌, refl, subst, ◌⊎◌, inl, inr, ◌==◌, leb,
  length, take, drop, get_or, Lacks, find, codes,
}
use fluent_net.Http.{
  Method, Request, HeaderList, equal, literal, method_names, match_method, set_method, has_query,
  parse_version, parse_path, parse_next_line,
}
use fluent_net.Http.Outcomes.{Holds, Holds-bind, Holds-if}

take-Lacks : (c n : ℕ) (text : List ℕ) → Lacks c text → Lacks c (take n text)
take-Lacks c zero text h = tt
take-Lacks c (suc n) [] h = tt
take-Lacks c (suc n) (x ∷ xs) (h, hs) = (h, take-Lacks c n xs hs)

drop-Lacks : (c n : ℕ) (text : List ℕ) → Lacks c text → Lacks c (drop n text)
drop-Lacks c zero text h = h
drop-Lacks c (suc n) [] h = tt
drop-Lacks c (suc n) (x ∷ xs) (h, hs) = drop-Lacks c n xs hs

-- No byte is zero, or `B` is known anyway.
abbrev pub Bounded : Type 0 → List ℕ → Type 0
Bounded B text = Lacks 0 text ⊎ B

module _ (B : Type 0) where
  pub take-Bounded : (n : ℕ) (text : List ℕ) → Bounded B text → Bounded B (take n text)
  take-Bounded n text (inl h) = inl (take-Lacks 0 n text h)
  take-Bounded n text (inr b) = inr b

  drop-Bounded : (n : ℕ) (text : List ℕ) → Bounded B text → Bounded B (drop n text)
  drop-Bounded n text (inl h) = inl (drop-Lacks 0 n text h)
  drop-Bounded n text (inr b) = inr b

  equal_past : (word : List ℕ) → B → Holds B (λ _. Unit {0}) (equal word [])
  unfolding equal
  equal_past [] b = tt
  equal_past (c ∷ cs) b = b

  equal-Holds :
      (word text : List ℕ) → Bounded B word → Holds B (λ _. Unit {0}) (equal word (literal text))
  unfolding equal
  equal-Holds [] text h = tt
  equal-Holds (c ∷ cs) [] (inl (h, hs)) = rw h tt
  equal-Holds (c ∷ cs) [] (inr b) =
      Holds-if B (λ _. Unit {0}) (c == 0) _ _ (λ _. equal_past cs b) (λ _. tt)
  equal-Holds (c ∷ cs) (d ∷ ds) h =
      Holds-if B (λ _. Unit {0}) (c == d) _ _ (λ _. equal-Holds cs ds (drop-Bounded 1 (c ∷ cs) h))
        (λ _. tt)

  -- The headers of the request are left alone.
  abbrev pub Keeps : HeaderList → Bool × Request → Type 0
  Keeps headers x = x.1.headers ≡ headers

  match_method-Keeps :
      (word : List ℕ) (names : List (List ℕ × Method)) (request : Request)
      → Bounded B word
      → Holds B (Keeps request.headers) (match_method word names request)
  unfolding match_method
  match_method-Keeps word [] request h = refl
  match_method-Keeps word ((name, m) ∷ names) request h =
      Holds-bind B (λ _. Unit {0}) (Keeps request.headers) (equal word (literal name)) _
        (equal-Holds word name h)
        λ same _.
          Holds-if B (Keeps request.headers) same _ _ (λ _. refl)
            (λ _. match_method-Keeps word names request h)

  set_method-Keeps :
      (request : Request) (text : List ℕ)
      → Bounded B text
      → Holds B (Keeps request.headers) (set_method request text)
  unfolding set_method
  set_method-Keeps request text h =
      Holds-if B (Keeps request.headers) (leb 3 (length text)) _ _
        (λ _.
          match_method-Keeps (take (length text - 1) text) method_names request
            (take-Bounded (length text - 1) text h))
        (λ _. refl)

  parse_version-Keeps :
      (request : Request) (text : List ℕ)
      → Bounded B text
      → Holds B (Keeps request.headers) (parse_version request text)
  unfolding parse_version
  parse_version-Keeps request text h =
      Holds-if B (Keeps request.headers) (length text == 8) _ _
        (λ _.
          Holds-bind B (λ _. Unit {0}) (Keeps request.headers)
            (equal (take 7 text) (literal (codes "HTTP/1."))) _
            (equal-Holds (take 7 text) (codes "HTTP/1.") (take-Bounded 7 text h))
            λ same _.
              Holds-if B (Keeps request.headers)
                (same && ((get_or text 7 0 == b'0') || (get_or text 7 0 == b'1'))) _ _ (λ _. refl)
                (λ _. refl))
        (λ _. refl)

  parse_path-Keeps :
      (request : Request) (text : List ℕ)
      → Bounded B text
      → Holds B (Keeps request.headers) (parse_path request text)
  unfolding parse_path
  parse_path-Keeps request text h =
      let space = find b' ' text in
      let rest = drop (suc space) text in
      Holds-if B (Keeps request.headers) (has_query (take space text)) _ _ (λ _. tt)
        (λ _.
          parse_version-Keeps (record request { path = take space text })
            (take (length rest - 2) rest)
            (take-Bounded (length rest - 2) rest (drop-Bounded (suc space) text h)))

  pub parse_next_line-Keeps :
      (request : Request) (text : List ℕ)
      → Bounded B text
      → Holds B (Keeps request.headers) (parse_next_line request text)
  unfolding parse_next_line
  parse_next_line-Keeps request text h =
      let space = find b' ' text in
      Holds-if B (Keeps request.headers) (space == length text) _ _ (λ _. refl)
        (λ _.
          Holds-bind B (Keeps request.headers) (Keeps request.headers)
            (set_method request (take space text)) _
            (set_method-Keeps request (take space text) (take-Bounded space text h))
            λ x e.
              Holds-if B (Keeps request.headers) x.0 _ _
                (λ _.
                  subst
                    (λ headers. Holds B (Keeps headers) (parse_path x.1 (drop (suc space) text))) e
                    (parse_path-Keeps x.1 (drop (suc space) text)
                      (drop-Bounded (suc space) text h)))
                (λ _. e))
