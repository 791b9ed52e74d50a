-- ===== src/Http/Tests.antt =====
-- examples/http at concrete requests and responses.
use fluent_net.Prelude.{
  ℕ, ◌%◌, ◌^◌, true, false, some, List, [], ◌∷◌, ◌++◌, ◌≡◌, refl, length, lacks-Lacks, codes,
}
use fluent_net.Errors.{fluent_exception}
use fluent_net.Buffer.{Buffer}
use fluent_net.Context.Samples.{idle}
use fluent_net.Strings.Print.{print_digits}
use fluent_net.Http.{
  done, get, v11, init, next_header, ready, Request, match_method, set_method, equal, parse,
  parse_rounds, parse_step, parse_init, parse_next_header, parse_next_line, parse_path,
  parse_version,
}
use fluent_net.Http
use fluent_net.Http.RequestLine.{IsPath, request_line}
use fluent_net.Http.Outcomes.{Holds}
use fluent_net.Http.Rounds.{ParseOk, parse_ends}
use fluent_net.Http.Parsed.{crlf, parsed_line, parse-request_line}
use fluent_net.Http.Response.{Response, ok_200, stream, framing, status_line, header_lines}
use fluent_net.Http.Reading.{body_of, content_length, stream_read}
use fluent_net.Http.Refusals.{IsForeign}
use fluent_net.Http.Server.{Session}

abbrev header_text : List ℕ
header_text = codes "Host: a\r\n\r\n"

abbrev request_text : List ℕ
request_text = request_line get (codes "/") v11 ++ crlf header_text

request_bytes : request_text ≡ codes "GET / HTTP/1.1\r\nHost: a\r\n\r\n"
request_bytes = refl

abbrev fresh : Request
fresh = record {
  method = Http.unknown;
  version = Http.unknown_version;
  path = [];
  query = [];
  headers = [];
}

-- The word "GE " counts as GET, "GETX" too, and a word with a zero byte is compared beyond the literal.
odd_methods :
    (set_method fresh (codes "GEX") ≡ done (true, record fresh { method = get }))
    × (set_method fresh (codes "GETX") ≡ done (true, record fresh { method = get }))
    × (set_method fresh (codes "GETXY") ≡ done (false, fresh))
    × (set_method fresh (b'G' ∷ b'E' ∷ b'T' ∷ 0 ∷ 0 ∷ 0 ∷ []) ≡ Http.out_of_bounds)
unfolding set_method match_method equal
odd_methods = (refl, refl, refl, refl)

query_throws : parse fresh init (codes "GET /?a HTTP/1.1\r\n") ≡ Http.raised fluent_exception
unfolding parse_rounds parse_step parse_init parse_next_line parse_path set_method match_method
    equal
query_throws = refl

parse_ends_example : Holds Unit (ParseOk [] request_text) (parse fresh init request_text)
parse_ends_example = parse_ends fresh init request_text

root_IsPath : IsPath (codes "/")
root_IsPath = ((refl, tt), (refl, tt), (refl, tt))

parse-request_line_example :
    parse fresh init request_text
    ≡ done (some 16, parsed_line fresh get (codes "/") v11 header_text)
parse-request_line_example =
    parse-request_line fresh get (codes "/") v11 refl root_IsPath refl header_text

abbrev hello : Response
hello = record {
  code = ok_200;
  message = codes "OK";
  headers = (codes "Server", codes "fluent") ∷ [];
  body = codes "a\r\n\r\nb";
  close_flag = false;
}

hello_bytes :
    stream hello
    ≡ codes
        "HTTP/1.1 200 OK\r\nContent-Length: 6\r\nConnection: Keep-Alive\r\nServer: fluent\r\n\r\na\r\n\r\nb"
unfolding stream framing status_line header_lines print_digits
hello_bytes = refl

stream_read_example :
    (body_of (stream hello) ≡ codes "a\r\n\r\nb") × (content_length (stream hello) ≡ 6 % 2 ^ 64)
stream_read_example = stream_read hello (
  lacks-Lacks b'\r' (codes "OK") refl,
  ((lacks-Lacks b'\r' (codes "Server") refl, lacks-Lacks b'\r' (codes "fluent") refl), tt),
)

abbrev full : List ℕ → Buffer
full text = record { buf = text; capacity = length text; r = 0; w = length text }

abbrev session : List ℕ → Session
session text = record {
  request = fresh;
  state = init;
  world = record idle { context = record (idle.context) { input = full text } };
}

abbrev host_IsForeign : IsForeign (codes "Host:")
unfolding set_method match_method equal
host_IsForeign =
    (lacks-Lacks b' ' (codes "Host:") refl, lacks-Lacks b'\r' (codes "Host:") refl, λ request. refl)
