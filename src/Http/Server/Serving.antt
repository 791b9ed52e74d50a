-- ===== src/Http/Server/Serving.antt =====
-- examples/http/Server.h: what a connection answers to a request, and to what it leaves in the buffer.
use fluent_net.Prelude.{
  ℕ, ◌+◌, true, Option, some, List, ◌∷◌, ◌++◌, ◌≡◌, refl, ap, ◌∙◌, arith, length, drop,
}
use fluent_net.Buffer.{Sent, has_read}
use fluent_net.Buffer.Contents.{IsValid, contents, length-contents, contents-has_read}
use fluent_net.Events.{EpollOperation}
use fluent_net.Context.{World}
use fluent_net.Http.{done, map_done, Method, Version, init, Request, Parse, parse}
use fluent_net.Http.RequestLine.{is_known, is_supported, IsPath, request_line, with_line}
use fluent_net.Http.Parsed.{
  crlf, parse-request_line, parsed_line, length-crlf, drop-crlf, request_line-Lacks,
}
use fluent_net.Http.Server.{
  Session, RequestCallback, make_response, respond, after_parse, keep_any, on_message,
}
use fluent_net.Http.Response.{Code}

-- The connection with the first `n` bytes of its input taken.
abbrev pub take_input : World → ℕ → World
take_input w n = record w { context = record (w.context) { input = has_read w.context.input n } }

abbrev refused_line : Request → Parse
refused_line request = record { consumed = 0; has_next = true; request = request; state = init }

module _ (callback : Option RequestCallback) (code : Code) (answer : Sent)
    (ctl : EpollOperation → Option ℕ) where
  after-parsed_line :
      (w : World) (request : Request) (m : Method) (path : List ℕ) (v : Version) (c : ℕ)
      (rest : List ℕ) (n : ℕ)
      → after_parse answer ctl callback code (some n, parsed_line request m path v (c ∷ rest)) w
        ≡ respond answer ctl
            (make_response callback code (with_line request m path v))
            (take_input w n)
  unfolding after_parse
  after-parsed_line w request m path v c rest n = refl

  message-parsed :
      (s : Session) (x : Option ℕ × Parse)
      → parse s.request s.state (contents s.world.context.input) ≡ done x
      → on_message answer ctl callback code s
        ≡ done (keep_any s (after_parse answer ctl callback code x s.world))
  unfolding on_message
  message-parsed s x e =
      ap (map_done (λ parsed. keep_any s (after_parse answer ctl callback code parsed s.world))) e

  -- A message that begins with a well made request line and goes on behind it, on a connection that
  -- waits for a request: the answer is the response to a request without headers, and what stands
  -- behind the line stays in the buffer.
  pub on_message-request_line :
      (s : Session) (m : Method) (path : List ℕ) (v : Version) (c : ℕ) (rest : List ℕ)
      → s.state ≡ init
      → IsValid s.world.context.input
      → is_known m ≡ true
      → IsPath path
      → is_supported v ≡ true
      → contents s.world.context.input ≡ request_line m path v ++ crlf (c ∷ rest)
      → (let n = length (request_line m path v) + 2 in
          (on_message answer ctl callback code s
            ≡ done (
                keep_any s (
                  respond answer ctl
                    (make_response callback code (with_line s.request m path v))
                    (take_input s.world n))))
          × (contents (take_input s.world n).context.input ≡ c ∷ rest))
  on_message-request_line s m path v c rest starts valid known good supported text =
      let n = length (request_line m path v) + 2 in
      let input = s.world.context.input in
      let whole = ap (parse s.request s.state) text in
      let from_start =
        ap (λ st. parse s.request st (request_line m path v ++ crlf (c ∷ rest))) starts in
      let parsed =
        whole
        ∙ from_start
        ∙ parse-request_line s.request m path v known good supported (c ∷ rest) in
      let size =
        length-crlf (request_line m path v) (c ∷ rest) (request_line-Lacks m path v good) in
      (
        message-parsed s _ parsed
            ∙ ap (λ x. done (keep_any s x)) (after-parsed_line s.world s.request m path v c rest n),
        contents-has_read input n valid
              (omega (arith, length-contents input valid, ap length text, size))
            ∙ ap (drop n) text
            ∙ drop-crlf (request_line m path v) (c ∷ rest),
      )
