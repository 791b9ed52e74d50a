-- ===== src/Http/Reading.antt =====
-- examples/http/Response.h: what a client reads of the bytes that `stream` makes.
use fluent_net.Prelude.{
  ℕ, zero, suc, ◌+◌, ◌-◌, ◌%◌, ◌^◌, ◌≤◌, ◌<◌, true, false, List, [], ◌∷◌, ◌++◌, ◌≡◌, refl, ap, ◌∙◌,
  inl, inr, arith, append_assoc, if◌then◌else◌, ◌==◌, length, take, drop, length-append, All,
  All-append, codes, find, Lacks, find-Lacks, lacks-Lacks, take-length-append, Bool-cases,
}
use fluent_net.Strings.{to_dec}
use fluent_net.Strings.Print.{to_string, to_dec-to_string, to_string-Lacks}
use fluent_net.Http.{HeaderList}
use fluent_net.Http.Parsed.{crlf, drop-crlf}
use fluent_net.Http.Response.{Response, code_number, header_lines, framing, status_line, stream}

-- Behind the first line.
abbrev pub next_line : List ℕ → List ℕ
next_line text = drop (find b'\r' text + 2) text

abbrev pub first_line : List ℕ → List ℕ
first_line text = take (find b'\r' text) text

-- Line after line, up to the empty one; what is behind it is the body.
abbrev pub body_from : ℕ → List ℕ → List ℕ
body_from zero text = []
body_from (suc n) text =
    let rest = body_from n (next_line text) in if find b'\r' text == 0 then next_line text else rest

abbrev pub body_of : List ℕ → List ℕ
body_of text = body_from (length text) text

-- The number behind "Content-Length: " in the second line, as 64 bits.
abbrev pub content_length : List ℕ → ℕ
content_length text = to_dec 64 (drop 16 (first_line (next_line text)))

module _ (line : List ℕ) (h : Lacks b'\r' line) (rest : List ℕ) where
  next_line-crlf : next_line (line ++ crlf rest) ≡ rest
  next_line-crlf = rw (find-Lacks b'\r' line (b'\n' ∷ rest) h) (drop-crlf line rest)

  first_line-crlf : first_line (line ++ crlf rest) ≡ line
  first_line-crlf =
      rw (find-Lacks b'\r' line (b'\n' ∷ rest) h) (take-length-append line (crlf rest))

  body_from-line :
      (n m : ℕ) → 0 < length line → n ≡ suc m → body_from n (line ++ crlf rest) ≡ body_from m rest
  body_from-line n m k l =
      let some_line : (length line == 0) ≡ false = ground (arith, k) in
      rw l (
        rw (find-Lacks b'\r' line (b'\n' ∷ rest) h)
          (rw some_line (ap (body_from m) (drop-crlf line rest))))

-- Nothing that the response is made of holds a return.
abbrev pub IsHeader : List ℕ × List ℕ → Type 0
IsHeader (name, content) = Lacks b'\r' name × Lacks b'\r' content

abbrev pub IsClean : Response → Type 0
IsClean r = Lacks b'\r' r.message × All IsHeader r.headers

header_shape :
    (name content before body : List ℕ)
    → (name ++ b':' ∷ b' ' ∷ (content ++ crlf before)) ++ crlf body
      ≡ (name ++ b':' ∷ b' ' ∷ content) ++ crlf (before ++ crlf body)
header_shape name content before body = simp append_assoc

body-header_lines :
    (headers : HeaderList) (n : ℕ) (body : List ℕ)
    → All IsHeader headers
    → length headers < n
    → body_from n (header_lines headers ++ crlf body) ≡ body
unfolding header_lines
body-header_lines headers zero body h k = absurd (omega arith)
body-header_lines [] (suc n) body h k = refl
body-header_lines ((name, content) ∷ headers) (suc n) body ((hn, hc), hs) k =
    let rest = header_lines headers ++ crlf body in
    let line = name ++ b':' ∷ b' ' ∷ content in
    let some_line : 0 < length line = omega (arith, length-append name (b':' ∷ b' ' ∷ content)) in
    ap (body_from (suc n)) (header_shape name content (header_lines headers) body)
    ∙ body_from-line line (All-append _ name (b':' ∷ b' ' ∷ content) hn (refl, (refl, hc))) rest
        (suc n) n some_line refl
    ∙ body-header_lines headers n body hs (omega (arith, k))

length-header_lines : (headers : HeaderList) → length headers ≤ length (header_lines headers)
unfolding header_lines
length-header_lines [] = omega arith
length-header_lines ((name, content) ∷ headers) = omega (
  arith,
  length-append name (codes ": " ++ (content ++ crlf (header_lines headers))),
  length-append content (crlf (header_lines headers)),
  length-header_lines headers,
)

-- The status line of the response, and the line that tells the length of its body.
abbrev pub status : Response → List ℕ
status r = codes "HTTP/1.1 " ++ (to_string (code_number r.code) ++ b' ' ∷ r.message)

abbrev pub length_line : Response → List ℕ
length_line r = codes "Content-Length: " ++ to_string (length r.body)

stream-kept :
    (r : Response)
    → r.close_flag ≡ false
    → stream r
      ≡ status r
        ++ crlf (
            length_line r
            ++ crlf
                (codes "Connection: Keep-Alive" ++ crlf (header_lines r.headers ++ crlf r.body)))
unfolding stream framing status_line
stream-kept r h = rw h (simp append_assoc)

stream-closed :
    (r : Response)
    → r.close_flag ≡ true
    → stream r
      ≡ status r ++ crlf (codes "Connection: close" ++ crlf (header_lines r.headers ++ crlf r.body))
unfolding stream framing status_line
stream-closed r h = rw h (simp append_assoc)

status-Lacks : (r : Response) → IsClean r → Lacks b'\r' (status r)
status-Lacks r h =
    All-append _ (codes "HTTP/1.1 ") (to_string (code_number r.code) ++ b' ' ∷ r.message)
      (lacks-Lacks b'\r' (codes "HTTP/1.1 ") refl)
      (All-append _ (to_string (code_number r.code)) (b' ' ∷ r.message)
        (to_string-Lacks b'\r' (code_number r.code) (inl (omega arith))) (refl, h.0))

length_line-Lacks : (r : Response) → Lacks b'\r' (length_line r)
length_line-Lacks r =
    All-append _ (codes "Content-Length: ") (to_string (length r.body))
      (lacks-Lacks b'\r' (codes "Content-Length: ") refl)
      (to_string-Lacks b'\r' (length r.body) (inl (omega arith)))

-- The last lines of a response: one line, the headers, and the body.
abbrev last_lines : List ℕ → Response → List ℕ
last_lines line r = line ++ crlf (header_lines r.headers ++ crlf r.body)

body-last_lines :
    (line : List ℕ) (r : Response) (n : ℕ)
    → Lacks b'\r' line
    → 0 < length line
    → IsClean r
    → length r.headers + 1 < n
    → body_from n (last_lines line r) ≡ r.body
body-last_lines line r n h k clean l =
    body_from-line line h (header_lines r.headers ++ crlf r.body) n (n - 1) k (omega arith)
    ∙ body-header_lines r.headers (n - 1) r.body clean.1 (omega (arith, l))

long_lines : (line : List ℕ) (r : Response) → 2 + length r.headers ≤ length (last_lines line r)
long_lines line r = omega (
  arith,
  length-append line (crlf (header_lines r.headers ++ crlf r.body)),
  length-append (header_lines r.headers) (crlf r.body),
  length-header_lines r.headers,
)

body-status :
    (r : Response) (rest : List ℕ) (n : ℕ)
    → IsClean r
    → 0 < n
    → body_from n (status r ++ crlf rest) ≡ body_from (n - 1) rest
body-status r rest n clean h =
    body_from-line (status r) (status-Lacks r clean) rest n (n - 1) (omega arith) (omega arith)

kept_body :
    (r : Response)
    → IsClean r
    → (let lines = last_lines (codes "Connection: Keep-Alive") r in
        body_of (status r ++ crlf (length_line r ++ crlf lines)) ≡ r.body)
kept_body r clean =
    let lines = last_lines (codes "Connection: Keep-Alive") r in
    let rest = length_line r ++ crlf lines in
    let text = status r ++ crlf rest in
    let size = length-append (status r) (crlf rest) in
    let size' = length-append (length_line r) (crlf lines) in
    let long = long_lines (codes "Connection: Keep-Alive") r in
    body-status r rest (length text) clean (omega (arith, size))
    ∙ body_from-line (length_line r) (length_line-Lacks r) lines (length text - 1)
        (length text - 1 - 1) (omega arith) (omega (arith, size, size'))
    ∙ body-last_lines (codes "Connection: Keep-Alive") r (length text - 1 - 1)
        (lacks-Lacks b'\r' (codes "Connection: Keep-Alive") refl) (omega arith) clean
        (omega (arith, size, size', long))

closed_body :
    (r : Response)
    → IsClean r
    → body_of (status r ++ crlf (last_lines (codes "Connection: close") r)) ≡ r.body
closed_body r clean =
    let lines = last_lines (codes "Connection: close") r in
    let text = status r ++ crlf lines in
    let size = length-append (status r) (crlf lines) in
    body-status r lines (length text) clean (omega (arith, size))
    ∙ body-last_lines (codes "Connection: close") r (length text - 1)
        (lacks-Lacks b'\r' (codes "Connection: close") refl) (omega arith) clean
        (omega (arith, size, long_lines (codes "Connection: close") r))

kept_length :
    (r : Response) (rest : List ℕ)
    → IsClean r
    → content_length (status r ++ crlf (length_line r ++ crlf rest)) ≡ length r.body % 2 ^ 64
kept_length r rest clean =
    let second = next_line-crlf (status r) (status-Lacks r clean) (length_line r ++ crlf rest) in
    let first = first_line-crlf (length_line r) (length_line-Lacks r) rest in
    ap (λ t. to_dec 64 (drop 16 (first_line t))) second
    ∙ ap (λ t. to_dec 64 (drop 16 t)) first
    ∙ to_dec-to_string 64 (length r.body) (omega arith)

-- A client that reads the lines of `stream`, of a response whose message and headers hold no '\r',
-- finds the body behind the empty line; and if the connection is kept, its second line tells the
-- length of the body, modulo 2 ^ 64.
pub stream_read :
    (r : Response)
    → IsClean r
    → (body_of (stream r) ≡ r.body)
      × (if r.close_flag then Unit else content_length (stream r) ≡ length r.body % 2 ^ 64)
stream_read r clean = elim (Bool-cases r.close_flag) [
  | inl t ↦ rw (stream-closed r t) (rw t (closed_body r clean, tt))
  | inr f ↦ rw (stream-kept r f) (
      rw f (kept_body r clean, kept_length r (last_lines (codes "Connection: Keep-Alive") r) clean))
]
