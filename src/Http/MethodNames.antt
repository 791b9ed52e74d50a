-- ===== src/Http/MethodNames.antt =====
-- examples/http/Request.h, `setMethod`: which words it takes for a method.
use fluent_net.Prelude.{
  ℕ, ◌-◌, true, List, [], ◌∷◌, ◌++◌, ◌≡◌, refl, ap, ◌∙◌, arith, length, take, length-append,
  take-length-append, leb,
}
use fluent_net.Http.{
  done, Method, unknown, get, post, head, put, delete, Request, equal, method_names, match_method,
  set_method,
}
use fluent_net.Http.RequestLine.{method_name, is_known}

-- The word without its last byte.
cut_last : (word : List ℕ) (c : ℕ) → take (length (word ++ c ∷ []) - 1) (word ++ c ∷ []) ≡ word
cut_last word c =
    let e : length (word ++ c ∷ []) - 1 ≡ length word =
      omega (arith, length-append word (c ∷ [])) in
    ap (λ n. take n (word ++ c ∷ [])) e ∙ take-length-append word (c ∷ [])

match_method-name :
    (request : Request) (m : Method)
    → is_known m ≡ true
    → match_method (method_name m) method_names request ≡ done (true, record request { method = m })
unfolding match_method equal
match_method-name request unknown h = ground arith
match_method-name request get h = refl
match_method-name request post h = refl
match_method-name request head h = refl
match_method-name request put h = refl
match_method-name request delete h = refl

long_enough :
    (m : Method) (c : ℕ) → is_known m ≡ true → leb 3 (length (method_name m ++ c ∷ [])) ≡ true
long_enough unknown c h = ground arith
long_enough get c h = refl
long_enough post c h = refl
long_enough head c h = refl
long_enough put c h = refl
long_enough delete c h = refl

-- `setMethod` never looks at the last byte of a word; so the name of a method with any byte behind it
-- is that method.
pub set_method_last :
    (request : Request) (word : List ℕ) (m : Method) (c d : ℕ)
    → is_known m ≡ true
    → (set_method request (word ++ c ∷ []) ≡ set_method request (word ++ d ∷ []))
      × (set_method request (method_name m ++ c ∷ []) ≡ done (true, record request { method = m }))
unfolding set_method
set_method_last request word m c d h =
    let size : length (word ++ c ∷ []) ≡ length (word ++ d ∷ []) =
      omega (arith, length-append word (c ∷ []), length-append word (d ∷ [])) in
    (
      rw (cut_last word c) (rw (cut_last word d) (rw size refl)),
      rw (long_enough m c h) (rw (cut_last (method_name m) c) (match_method-name request m h)),
    )
