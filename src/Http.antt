-- ===== src/Http.antt =====
-- examples/http/Request.h, examples/http/Stream.h and examples/http/Parser.h.
-- A range of iterators is the list of its bytes. The parser gets `first` by value, so a step reads
-- the same bytes as the one before.

pub mod RequestLine
pub mod Rounds
pub mod Keeps
pub mod MethodNames
pub mod Response
pub mod Reading
pub mod Refusals
pub mod Server
pub mod Parsed
pub mod Outcomes
mod Tests
use fluent_net.Prelude.{
  ℕ, zero, suc, ◌+◌, ◌-◌, Bool, true, false, ◌&&◌, ◌||◌, not, Option, none, some, List, [], ◌∷◌,
  ◌++◌, if◌then◌else◌, ◌==◌, ltb, leb, length, take, drop, get_or, codes, find,
}
use fluent_net.Errors.{Exception, fluent_exception}

-- What a piece of the parser does: it goes on, it throws, it reads behind the end of a literal, or
-- the rounds given to it are used up.
pub data Outcome {ℓ} (A : Type ℓ) : Type ℓ where
  done : A → Outcome A
  raised : Exception → Outcome A
  out_of_bounds : Outcome A
  out_of_rounds : Outcome A

infixl 5 ◌>>=◌
abbrev pub ◌>>=◌ {ℓ κ} : {A : Type ℓ} {B : Type κ} → Outcome A → (A → Outcome B) → Outcome B
done a >>= f = f a
raised e >>= f = raised e
out_of_bounds >>= f = out_of_bounds
out_of_rounds >>= f = out_of_rounds

abbrev pub map_done {ℓ κ} : {A : Type ℓ} {B : Type κ} → (A → B) → Outcome A → Outcome B
map_done f (done a) = done (f a)
map_done f (raised e) = raised e
map_done f out_of_bounds = out_of_bounds
map_done f out_of_rounds = out_of_rounds

pub data Method : Type 0 where
  unknown get post head put delete : Method

pub data Version : Type 0 where
  unknown_version v10 v11 : Version

pub data StreamState : Type 0 where
  init next_header next_body ready : StreamState

-- `std::map`, as its entries.
abbrev pub HeaderList : Type 0
HeaderList = List (List ℕ × List ℕ)

pub record Request : Type 0 where
  pub method : Method
  pub version : Version
  pub path : List ℕ
  pub query : List ℕ
  pub headers : HeaderList

unfoldable pub new : Request
new = record { method = unknown; version = unknown_version; path = []; query = []; headers = [] }

-- `std::equal(first, last, literal)`; the literal ends with its zero.
unfoldable pub equal : List ℕ → List ℕ → Outcome Bool
equal [] literal = done true
equal (c ∷ cs) [] = out_of_bounds
equal (c ∷ cs) (d ∷ ds) = let rest = equal cs ds in if c == d then rest else done false

abbrev pub same_text : List ℕ → List ℕ → Bool
same_text [] [] = true
same_text [] (d ∷ ds) = false
same_text (c ∷ cs) [] = false
same_text (c ∷ cs) (d ∷ ds) = (c == d) && same_text cs ds

abbrev pub literal : List ℕ → List ℕ
literal text = text ++ 0 ∷ []

-- The literals that `setMethod` compares with, in its order.
abbrev pub method_names : List (List ℕ × Method)
method_names =
    (codes "GET", get)
    ∷ (codes "PUT", put)
    ∷ (codes "POST", post)
    ∷ (codes "HEAD", head)
    ∷ (codes "DELETE", delete)
    ∷ []

unfoldable pub match_method : List ℕ → List (List ℕ × Method) → Request → Outcome (Bool × Request)
match_method word [] request = done (false, request)
match_method word ((name, m) ∷ names) request =
    let rest = match_method word names request in
    equal word (literal name) >>= λ same.
    if same then done (true, record request { method = m }) else rest

-- `setMethod(first, last)`; it steps `last` back by one before it compares.
unfoldable pub set_method : Request → List ℕ → Outcome (Bool × Request)
set_method request text =
    if leb 3 (length text)
    then match_method (take (length text - 1) text) method_names request
    else done (false, request)

-- `std::string(first, space)` holds the mark of a query.
abbrev pub has_query : List ℕ → Bool
has_query path = not (find b'?' path == length path)

-- The last part of `parseNextLine`, from behind the second space to the end of the line.
unfoldable pub parse_version : Request → List ℕ → Outcome (Bool × Request)
parse_version request text =
    let digit = get_or text 7 0 in
    if length text == 8
    then (do
      same ← equal (take 7 text) (literal (codes "HTTP/1."))
      if same && ((digit == b'0') || (digit == b'1'))
          then done (true, record request { version = if digit == b'0' then v10 else v11 })
          else done (false, request))
    else done (false, request)

-- The middle part, from behind the first space.
unfoldable pub parse_path : Request → List ℕ → Outcome (Bool × Request)
parse_path request text =
    let space = find b' ' text in
    let path = take space text in
    let rest = drop (suc space) text in
    if has_query path
    then raised fluent_exception
    else parse_version (record request { path = path }) (take (length rest - 2) rest)

-- `parseNextLine(request, first, last)`; the range ends with "\r\n".
unfoldable pub parse_next_line : Request → List ℕ → Outcome (Bool × Request)
parse_next_line request text =
    let space = find b' ' text in
    if space == length text
    then done (false, request)
    else set_method request (take space text) >>= λ (method_done, request').
        if method_done then parse_path request' (drop (suc space) text) else done (false, request')

-- What `parse` hands by reference to its steps.
pub record Parse : Type 0 where
  pub consumed : ℕ
  pub has_next : Bool
  pub request : Request
  pub state : StreamState

-- The first '\r' in the text is followed by '\n'.
abbrev pub line_ends : List ℕ → Bool
line_ends text =
    let rpos = find b'\r' text in
    ltb rpos (length text) && (ltb (suc rpos) (length text) && (get_or text (suc rpos) 0 == b'\n'))

unfoldable pub parse_init : Parse → List ℕ → Outcome (Bool × Parse)
parse_init p text =
    let next_begin = find b'\r' text + 2 in
    if line_ends text && not (find b'\r' text == 0)
    then (do
      (valid, request) ← parse_next_line p.request (take next_begin text)
      if valid
          then done (
            true,
            record {
              consumed = p.consumed + next_begin;
              has_next = ltb next_begin (length text);
              request = request;
              state = next_header;
            },
          )
          else done (false, record p { request = request }))
    else done (true, record p { has_next = false })

-- `headers[header] = content`
abbrev pub put_header : HeaderList → List ℕ → List ℕ → HeaderList
put_header [] name content = (name, content) ∷ []
put_header ((key, value) ∷ rest) name content =
    let rest' = put_header rest name content in
    if same_text key name then (name, content) ∷ rest else (key, value) ∷ rest'

-- The branch of `parseNextHeader` that keeps a header; it is taken where the line is empty.
unfoldable pub store_header : Parse → List ℕ → Outcome (Bool × Parse)
store_header p text =
    let rpos = find b'\r' text in
    let next_begin = rpos + 2 in
    let pos = find b':' (take rpos text) in
    if pos == rpos
    then done (false, p)
    else (let request = p.request in
        done (
          true,
          record p {
            consumed = p.consumed + next_begin;
            has_next = ltb next_begin (length text);
            request = record request {
              headers =
                  put_header request.headers (take pos text)
                    (take (rpos - (pos + 2)) (drop (pos + 2) text));
            };
          },
        ))

unfoldable pub parse_next_header : Parse → List ℕ → Outcome (Bool × Parse)
parse_next_header p text =
    if line_ends text
    then (if find b'\r' text == 0
        then store_header p text
        else done (true, record p { state = ready }))
    else done (true, record p { has_next = false })

-- One round of the loop in `parse`.
unfoldable pub parse_step : Parse → List ℕ → Outcome (Bool × Parse)
parse_step p text = elim p.state [
  | init ↦ parse_init p text
  | next_header ↦ parse_next_header p text
  | _ ↦ done (true, record p { has_next = false })
]

-- `while(hasNext)`; the value is none for -400.
unfoldable pub parse_rounds : ℕ → Parse → List ℕ → Outcome (Option ℕ × Parse)
parse_rounds zero p text = if p.has_next then out_of_rounds else done (some p.consumed, p)
parse_rounds (suc n) p text =
    let next = λ (q : Parse). parse_rounds n q text in
    if p.has_next
    then (do (valid, q) ← parse_step p text; if valid then next q else done (none, q))
    else done (some p.consumed, p)

abbrev pub parse : Request → StreamState → List ℕ → Outcome (Option ℕ × Parse)
parse request state text =
    parse_rounds 3 (record { consumed = 0; has_next = true; request = request; state = state }) text
