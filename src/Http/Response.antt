-- ===== src/Http/Response.antt =====
-- examples/http/Response.h: the bytes of a response.
use fluent_net.Prelude.{ℕ, Bool, List, [], ◌∷◌, ◌++◌, if◌then◌else◌, length, codes}
use fluent_net.Strings.Print.{to_string}
use fluent_net.Http.{HeaderList}

pub data Code : Type 0 where
  unknown_code ok_200 moved_permanently_301 bad_request_400 not_found_404 : Code

-- `static_cast<uint>(code)`
abbrev pub code_number : Code → ℕ
code_number unknown_code = 0
code_number ok_200 = 200
code_number moved_permanently_301 = 301
code_number bad_request_400 = 400
code_number not_found_404 = 404

pub record Response : Type 0 where
  pub code : Code
  pub message : List ℕ
  pub headers : HeaderList
  pub body : List ℕ
  pub close_flag : Bool

-- The headers, in the order of the map.
unfoldable pub header_lines : HeaderList → List ℕ
header_lines [] = []
header_lines ((name, content) ∷ headers) =
    name ++ (codes ": " ++ (content ++ (codes "\r\n" ++ header_lines headers)))

-- Whether the connection is kept; only then is the length of the body told.
unfoldable pub framing : Response → List ℕ
framing r =
    if r.close_flag
    then codes "\r\nConnection: close\r\n"
    else codes "\r\nContent-Length: "
      ++ (to_string (length r.body) ++ codes "\r\nConnection: Keep-Alive\r\n")

unfoldable pub status_line : Response → List ℕ
status_line r = codes "HTTP/1.1 " ++ (to_string (code_number r.code) ++ (codes " " ++ r.message))

-- `stream()`
unfoldable pub stream : Response → List ℕ
stream r = status_line r ++ (framing r ++ (header_lines r.headers ++ (codes "\r\n" ++ r.body)))
