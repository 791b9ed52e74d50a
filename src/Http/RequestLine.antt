-- ===== src/Http/RequestLine.antt =====
-- examples/http/Parser.h, `parseNextLine` and `parseInit` on a request line that is well made.
use fluent_net.Prelude.{
  ℕ, ◌-◌, Bool, true, false, List, [], ◌∷◌, ◌++◌, ◌≡◌, refl, ap, ◌∙◌, arith, append_assoc, ◌==◌,
  length, take, length-append, codes, Lacks, find-Lacks, find_all-Lacks, lacks-Lacks, same_number,
  take-length-append, drop-past,
}
use fluent_net.Http.{
  done, Method, unknown, get, post, head, put, delete, Version, unknown_version, v10, v11, Request,
  equal, match_method, set_method, parse_version, parse_path, parse_next_line,
}

abbrev pub method_name : Method → List ℕ
method_name unknown = []
method_name get = codes "GET"
method_name post = codes "POST"
method_name head = codes "HEAD"
method_name put = codes "PUT"
method_name delete = codes "DELETE"

abbrev pub is_known : Method → Bool
is_known unknown = false
is_known _ = true

abbrev pub version_name : Version → List ℕ
version_name unknown_version = []
version_name v10 = codes "HTTP/1.0"
version_name v11 = codes "HTTP/1.1"

abbrev pub is_supported : Version → Bool
is_supported unknown_version = false
is_supported _ = true

-- The bytes of a path as the parser takes them: no space, no return, no mark of a query.
abbrev pub IsPath : List ℕ → Type 0
IsPath path = Lacks b' ' path × Lacks b'\r' path × Lacks b'?' path

-- The line without its "\r\n".
abbrev pub request_line : Method → List ℕ → Version → List ℕ
request_line m path v = method_name m ++ b' ' ∷ (path ++ b' ' ∷ version_name v)

abbrev pub with_line : Request → Method → List ℕ → Version → Request
with_line request m path v = record request { method = m; version = v; path = path }

set_method-name :
    (request : Request) (m : Method)
    → is_known m ≡ true
    → set_method request (method_name m) ≡ done (true, record request { method = m })
unfolding set_method match_method equal
set_method-name request unknown h = ground arith
set_method-name request get h = refl
set_method-name request post h = refl
set_method-name request head h = refl
set_method-name request put h = refl
set_method-name request delete h = refl

pub name-Lacks : (m : Method) → Lacks b' ' (method_name m) × Lacks b'\r' (method_name m)
name-Lacks unknown = (tt, tt)
name-Lacks get = (lacks-Lacks b' ' (method_name get) refl, lacks-Lacks b'\r' (method_name get) refl)
name-Lacks post =
    (lacks-Lacks b' ' (method_name post) refl, lacks-Lacks b'\r' (method_name post) refl)
name-Lacks head =
    (lacks-Lacks b' ' (method_name head) refl, lacks-Lacks b'\r' (method_name head) refl)
name-Lacks put = (lacks-Lacks b' ' (method_name put) refl, lacks-Lacks b'\r' (method_name put) refl)
name-Lacks delete =
    (lacks-Lacks b' ' (method_name delete) refl, lacks-Lacks b'\r' (method_name delete) refl)

pub version-Lacks : (v : Version) → Lacks b'\r' (version_name v)
version-Lacks unknown_version = tt
version-Lacks v10 = lacks-Lacks b'\r' (version_name v10) refl
version-Lacks v11 = lacks-Lacks b'\r' (version_name v11) refl

parse_version-name :
    (request : Request) (v : Version)
    → is_supported v ≡ true
    → parse_version request (version_name v) ≡ done (true, record request { version = v })
unfolding parse_version equal
parse_version-name request unknown_version h = ground arith
parse_version-name request v10 h = refl
parse_version-name request v11 h = refl

-- The end of the line is cut off.
cut_end :
    (text : List ℕ)
    → take (length (text ++ b'\r' ∷ b'\n' ∷ []) - 2) (text ++ b'\r' ∷ b'\n' ∷ []) ≡ text
cut_end text =
    let e : length (text ++ b'\r' ∷ b'\n' ∷ []) - 2 ≡ length text =
      omega (arith, length-append text (b'\r' ∷ b'\n' ∷ [])) in
    ap (λ n. take n (text ++ b'\r' ∷ b'\n' ∷ [])) e ∙ take-length-append text _

parse_path-line :
    (request : Request) (path : List ℕ) (v : Version)
    → Lacks b' ' path
    → Lacks b'?' path
    → is_supported v ≡ true
    → parse_path request (path ++ b' ' ∷ (version_name v ++ b'\r' ∷ b'\n' ∷ []))
      ≡ done (true, record request { path = path; version = v })
unfolding parse_path
parse_path-line request path v h g k =
    let tail = version_name v ++ b'\r' ∷ b'\n' ∷ [] in
    rw (find-Lacks b' ' path tail h) (
      rw (take-length-append path (b' ' ∷ tail)) (
        rw (drop-past path b' ' tail) (
          rw (find_all-Lacks b'?' path g) (
            rw (cut_end (version_name v)) (
              rw (same_number (length path))
                (parse_version-name (record request { path = path }) v k))))))

-- The parser's line on what `request_line` writes.
pub parse_next_line-request_line :
    (request : Request) (m : Method) (path : List ℕ) (v : Version)
    → is_known m ≡ true
    → IsPath path
    → is_supported v ≡ true
    → parse_next_line request (request_line m path v ++ b'\r' ∷ b'\n' ∷ [])
      ≡ done (true, with_line request m path v)
unfolding parse_next_line
parse_next_line-request_line request m path v h (spaces, returns, queries) k =
    let rest = path ++ b' ' ∷ (version_name v ++ b'\r' ∷ b'\n' ∷ []) in
    let shape : request_line m path v ++ b'\r' ∷ b'\n' ∷ [] ≡ method_name m ++ b' ' ∷ rest =
      append_assoc (method_name m) (b' ' ∷ (path ++ b' ' ∷ version_name v)) _
      ∙ ap (λ t. method_name m ++ b' ' ∷ t) (append_assoc path (b' ' ∷ version_name v) _) in
    let more : (length (method_name m) == length (method_name m ++ b' ' ∷ rest)) ≡ false =
      ground (arith, length-append (method_name m) (b' ' ∷ rest)) in
    rw shape (
      rw (find-Lacks b' ' (method_name m) rest (name-Lacks m).0) (
        rw more (
          rw (take-length-append (method_name m) (b' ' ∷ rest)) (
            rw (drop-past (method_name m) b' ' rest) (
              rw (set_method-name request m h)
                (parse_path-line (record request { method = m }) path v spaces queries k))))))
