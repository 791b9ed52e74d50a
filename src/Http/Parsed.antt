-- ===== src/Http/Parsed.antt =====
-- examples/http/Parser.h, `parse`, on a well made request line with any bytes behind it.
use fluent_net.Prelude.{
  ℕ, suc, ◌+◌, Bool, true, false, some, List, [], ◌∷◌, ◌++◌, ◌≡◌, refl, sym, ◌∙◌, arith,
  append_assoc, ◌==◌, ltb, length, take, drop, get_or, length-append, All-append, find, Lacks,
  find-Lacks, take-length-append,
}
use fluent_net.Http.{
  done, Method, Version, StreamState, Request, Parse, init, next_header, ready, parse_init,
  parse_next_header, parse_step, parse_rounds, parse, line_ends,
}
use fluent_net.Http.RequestLine.{
  method_name, is_known, version_name, is_supported, IsPath, request_line, with_line, name-Lacks,
  version-Lacks, parse_next_line-request_line,
}

abbrev pub crlf : List ℕ → List ℕ
crlf rest = b'\r' ∷ b'\n' ∷ rest

get_or-behind :
    (line : List ℕ) (c d : ℕ) (rest : List ℕ)
    → get_or (line ++ c ∷ d ∷ rest) (suc (length line)) 0 ≡ d
get_or-behind [] c d rest = refl
get_or-behind (x ∷ line) c d rest = get_or-behind line c d rest

drop_line : (line rest : List ℕ) → drop (suc (suc (length line))) (line ++ crlf rest) ≡ rest
drop_line [] rest = refl
drop_line (x ∷ line) rest = drop_line line rest

pub drop-crlf : (line rest : List ℕ) → drop (length line + 2) (line ++ crlf rest) ≡ rest
drop-crlf line rest =
    let e : length line + 2 ≡ suc (suc (length line)) = omega arith in rw e (drop_line line rest)

-- What the parser finds of a line without a return and what is behind it.
module _ (line rest : List ℕ) (h : Lacks b'\r' line) where
  pub find-crlf : find b'\r' (line ++ crlf rest) ≡ length line
  find-crlf = find-Lacks b'\r' line (b'\n' ∷ rest) h

  pub length-crlf : length (line ++ crlf rest) ≡ length line + 2 + length rest
  length-crlf = omega (arith, length-append line (crlf rest))

  pub take-crlf : take (length line + 2) (line ++ crlf rest) ≡ line ++ crlf []
  take-crlf =
      let shape : line ++ crlf rest ≡ (line ++ crlf []) ++ rest =
        sym (append_assoc line (crlf []) rest) in
      let size : length line + 2 ≡ length (line ++ crlf []) =
        omega (arith, length-append line (crlf [])) in
      rw (shape, size) (take-length-append (line ++ crlf []) rest)

  pub line_ends-crlf : line_ends (line ++ crlf rest) ≡ true
  line_ends-crlf =
      rw find-crlf (rw (get_or-behind line b'\r' b'\n' rest) (ground (arith, length-crlf)))

pub request_line-Lacks :
    (m : Method) (path : List ℕ) (v : Version) → IsPath path → Lacks b'\r' (request_line m path v)
request_line-Lacks m path v (spaces, returns, queries) =
    All-append _ (method_name m) (b' ' ∷ (path ++ b' ' ∷ version_name v)) (name-Lacks m).1
      (refl, All-append _ path (b' ' ∷ version_name v) returns (refl, version-Lacks v))

-- A round of the loop.
rounds_next :
    (n c : ℕ) (r : Request) (st : StreamState) (q : Parse) (text : List ℕ)
    → parse_step (record { consumed = c; has_next = true; request = r; state = st }) text
      ≡ done (true, q)
    → parse_rounds (suc n) (record { consumed = c; has_next = true; request = r; state = st }) text
      ≡ parse_rounds n q text
unfolding parse_rounds
rounds_next n c r st q text e = rw e refl

-- The state behind a line: the parser has looked at what follows, if there is anything.
abbrev pub state_behind : List ℕ → StreamState
state_behind [] = next_header
state_behind (c ∷ rest) = ready

abbrev pub parsed_line : Request → Method → List ℕ → Version → List ℕ → Parse
parsed_line request m path v rest = record {
  consumed = length (request_line m path v) + 2;
  has_next = false;
  request = with_line request m path v;
  state = state_behind rest;
}

module _ (request : Request) (m : Method) (path : List ℕ) (v : Version) (known : is_known m ≡ true)
    (good : IsPath path) (supported : is_supported v ≡ true) where
  some_line : (length (request_line m path v) == 0) ≡ false
  some_line = ground (arith, length-append (method_name m) (b' ' ∷ (path ++ b' ' ∷ version_name v)))

  init_round :
      (rest : List ℕ) (b : Bool)
      → ltb 0 (length rest) ≡ b
      → parse_init
          (record { consumed = 0; has_next = true; request = request; state = init })
          (request_line m path v ++ crlf rest)
        ≡ done (
          true,
          record {
            consumed = length (request_line m path v) + 2;
            has_next = b;
            request = with_line request m path v;
            state = next_header;
          },
        )
  unfolding parse_init
  init_round rest b e =
      let line = request_line m path v in
      let h = request_line-Lacks m path v good in
      let size = length-crlf line rest h in
      let count : 0 + (length line + 2) ≡ length line + 2 = omega arith in
      let more : ltb (length line + 2) (length (line ++ crlf rest)) ≡ b =
        ground (arith, size) ∙ e in
      rw (line_ends-crlf line rest h) (
        rw (find-crlf line rest h) (
          rw some_line (
            rw (take-crlf line rest h) (
              rw (parse_next_line-request_line request m path v known good supported)
                (rw more (rw count refl))))))

  header_round :
      (n : ℕ) (r : Request) (rest : List ℕ)
      → parse_next_header
          (record { consumed = n; has_next = true; request = r; state = next_header })
          (request_line m path v ++ crlf rest)
        ≡ done (true, record { consumed = n; has_next = true; request = r; state = ready })
  unfolding parse_next_header
  header_round n r rest =
      let line = request_line m path v in
      let h = request_line-Lacks m path v good in
      rw (line_ends-crlf line rest h) (rw (find-crlf line rest h) (rw some_line refl))

  -- `parse` from the start on a well made request line: it takes the line, knows the method, the path
  -- and the version, and if anything stands behind it is ready without having read a header.
  pub parse-request_line :
      (rest : List ℕ)
      → parse request init (request_line m path v ++ crlf rest)
        ≡ done (some (length (request_line m path v) + 2), parsed_line request m path v rest)
  unfolding parse_rounds parse_step
  parse-request_line [] = rw (init_round [] false refl) refl
  parse-request_line (c ∷ rest) =
      let line = request_line m path v in
      let r = with_line request m path v in
      let text = line ++ crlf (c ∷ rest) in
      let q : Parse = record {
        consumed = length line + 2;
        has_next = true;
        request = r;
        state = next_header;
      } in
      rounds_next 2 0 request init q text (init_round (c ∷ rest) true (ground arith))
      ∙ rounds_next 1 (length line + 2) r next_header (record q { state = ready }) text
          (header_round (length line + 2) r (c ∷ rest))
