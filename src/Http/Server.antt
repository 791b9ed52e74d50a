-- ===== src/Http/Server.antt =====
-- examples/http/Server.h: the callbacks that the HTTP server installs on a connection.
-- `cast` answers by value, so what a message does to the stream and the request ends with the call.
pub mod Serving
use fluent_net.Prelude.{
  ℕ, Bool, true, false, ◌&&◌, ◌||◌, not, Option, none, some, List, [], ◌∷◌, if◌then◌else◌, codes,
}
use fluent_net.Errors.{Result}
use fluent_net.Buffer.{Sent, has_read}
use fluent_net.Buffer.Contents.{contents}
use fluent_net.Events.{EpollOperation}
use fluent_net.Context.{World, M, ◌>>=◌, ◌>>◌, return, get, put, send, shutdown}
use fluent_net.Http.{
  Outcome, done, raised, out_of_bounds, out_of_rounds, Version, v10, StreamState, init, ready,
  Request, Parse, HeaderList, parse, same_text, map_done,
}
use fluent_net.Http
use fluent_net.Http.Response.{Response, Code, stream}

-- `context->any` and the connection.
pub record Session : Type 0 where
  pub request : Request
  pub state : StreamState
  pub world : World

-- The connect callback: `context->any = std::make_tuple(Stream{}, Request{})`.
unfoldable pub on_connect : World → Session
on_connect w = record { request = Http.new; state = init; world = w }

abbrev pub RequestCallback : Type 0
RequestCallback = Request → Response → Response

abbrev pub is_v10 : Version → Bool
is_v10 v10 = true
is_v10 _ = false

abbrev pub is_ready : StreamState → Bool
is_ready ready = true
is_ready _ = false

-- `headers[name]`
unfoldable pub header : HeaderList → List ℕ → List ℕ
header [] name = []
header ((key, content) ∷ headers) name =
    let rest = header headers name in if same_text key name then content else rest

unfoldable pub close_flag : Request → Bool
close_flag request =
    let connection_header = header request.headers (codes "Connection") in
    same_text connection_header (codes "close")
    || (is_v10 request.version && not (same_text connection_header (codes "Keep-Alive")))

-- `Response response`, whose code has no value yet.
abbrev pub blank : Code → Bool → Response
blank code flag = record { code = code; message = []; headers = []; body = []; close_flag = flag }

unfoldable pub make_response : Option RequestCallback → Code → Request → Response
make_response callback code request =
    let response = blank code (close_flag request) in
    elim callback [ none ↦ response | some f ↦ f request response ]

abbrev pub keep_any : Session → Result (Unit {0}) × World → Result (Unit {0}) × Session
keep_any s (result, w) = (result, record s { world = w })

module _ (answer : Sent) (ctl : EpollOperation → Option ℕ) where
  -- The reply to a request that is refused.
  unfoldable pub refuse : M (Unit {0})
  refuse = do _ ← send (codes "HTTP/1.1 400 Bad Request\r\n\r\n") answer ctl; shutdown

  unfoldable pub respond : Response → M (Unit {0})
  respond response = do
    _ ← send (stream response) answer ctl
    if response.close_flag then shutdown else return tt

  -- What follows a parse.
  unfoldable pub after_parse : Option RequestCallback → Code → Option ℕ × Parse → M (Unit {0})
  after_parse callback code (none, p) = refuse
  after_parse callback code (some parsed, p) = do
    c ← get
    put (record c { input = has_read c.input parsed })
    if is_ready p.state then respond (make_response callback code p.request) else return tt

  -- The message callback.
  unfoldable pub on_message :
      Option RequestCallback → Code → Session → Outcome (Result (Unit {0}) × Session)
  on_message callback code s =
      map_done (λ parsed. keep_any s (after_parse callback code parsed s.world))
        (parse s.request s.state (contents s.world.context.input))
