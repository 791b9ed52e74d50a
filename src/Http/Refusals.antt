-- ===== src/Http/Refusals.antt =====
-- examples/http/Parser.h: a line whose first word is no method is refused, whatever comes behind it.
use fluent_net.Prelude.{
  ℕ, true, false, none, List, [], ◌∷◌, ◌++◌, ◌≡◌, refl, arith, ◌==◌, length, length-append,
  All-append, find-Lacks, take-length-append, append_assoc, Lacks,
}
use fluent_net.Http.{
  done, init, Request, set_method, parse, parse_rounds, parse_step, parse_init, parse_next_line,
}
use fluent_net.Http.Parsed.{crlf, find-crlf, line_ends-crlf, take-crlf}

-- A word that the parser takes for no method.
abbrev pub IsForeign : List ℕ → Type 0
IsForeign word =
    Lacks b' ' word
    × Lacks b'\r' word
    × ((request : Request) → set_method request word ≡ done (false, request))

module _ (word rest behind : List ℕ) (foreign : IsForeign word) (returns : Lacks b'\r' rest) where
  abbrev pub foreign_line : List ℕ
  foreign_line = word ++ b' ' ∷ rest

  parse_next_line-foreign :
      (request : Request)
      → parse_next_line request (foreign_line ++ crlf []) ≡ done (false, request)
  unfolding parse_next_line
  parse_next_line-foreign request =
      let tail = rest ++ crlf [] in
      let more : (length word == length (word ++ b' ' ∷ tail)) ≡ false =
        ground (arith, length-append word (b' ' ∷ tail)) in
      rw (append_assoc word (b' ' ∷ rest) (crlf [])) (
        rw (find-Lacks b' ' word tail foreign.0)
          (rw more (rw (take-length-append word (b' ' ∷ tail)) (rw (foreign.2 request) refl))))

  pub parse-foreign :
      (request : Request)
      → parse request init (foreign_line ++ crlf behind)
        ≡ done (none, record { consumed = 0; has_next = true; request = request; state = init })
  unfolding parse_rounds parse_step parse_init
  parse-foreign request =
      let h = All-append _ word (b' ' ∷ rest) foreign.1 (refl, returns) in
      let some_line : (length foreign_line == 0) ≡ false =
        ground (arith, length-append word (b' ' ∷ rest)) in
      rw (line_ends-crlf foreign_line behind h) (
        rw (find-crlf foreign_line behind h) (
          rw some_line
            (rw (take-crlf foreign_line behind h) (rw (parse_next_line-foreign request) refl))))
