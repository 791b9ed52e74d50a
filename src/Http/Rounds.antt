-- ===== src/Http/Rounds.antt =====
-- examples/http/Parser.h, `parse`, on any bytes: its loop ends, stays in bounds, and takes a line or
-- nothing.
use fluent_net.Prelude.{
  ℕ, zero, suc, ◌+◌, ◌≤◌, ◌<◌, Bool, true, false, ◌&&◌, not, Option, none, some, List, ◌≡◌, refl,
  subst, ◌⊎◌, inl, inr, arith, if◌then◌else◌, ◌==◌, take, Lacks, find,
}
use fluent_net.Http.{
  done, Request, HeaderList, StreamState, init, next_header, next_body, ready, Parse,
  parse_next_line, parse_init, line_ends, store_header, parse_next_header, parse_step, parse_rounds,
  parse,
}
use fluent_net.Http.Keeps.{Bounded, take-Bounded, Keeps, parse_next_line-Keeps}
use fluent_net.Http.Outcomes.{Holds, Holds-bind, Holds-if}

-- The rounds that the loop may still make.
abbrev pub rank_of : StreamState → ℕ
rank_of init = 3
rank_of next_header = 2
rank_of next_body = 1
rank_of ready = 1

abbrev pub rank : Parse → ℕ
rank p = if p.has_next then rank_of p.state else 0

-- All of the first line, with its "\r\n".
abbrev pub IsLine : List ℕ → ℕ → Type 0
IsLine text n = (n ≡ find b'\r' text + 2) × (line_ends text ≡ true)

abbrev pub is_init : StreamState → Bool
is_init init = true
is_init _ = false

abbrev pub Taken : List ℕ → Parse → Type 0
Taken text p = (p.consumed ≡ 0) ⊎ ((is_init p.state ≡ false) × IsLine text p.consumed)

-- What a parse is: the headers it has, and the bytes that it takes if the request is not refused.
abbrev pub ParseOk : HeaderList → List ℕ → Option ℕ × Parse → Type 0
ParseOk headers text (none, q) = q.request.headers ≡ headers
ParseOk headers text (some n, q) = (q.request.headers ≡ headers) × ((n ≡ 0) ⊎ IsLine text n)

module _ (B : Type 0) where
  abbrev StepOk : HeaderList → ℕ → List ℕ → Bool × Parse → Type 0
  StepOk headers n text x =
      (x.1.request.headers ≡ headers) × (x.0 ≡ true → rank x.1 < n) × (x.0 ≡ true → Taken text x.1)

  parse_init-StepOk :
      (c : ℕ) (r : Request) (text : List ℕ)
      → Bounded B text
      → c ≡ 0
      → Holds B
          (StepOk r.headers 3 text)
          (parse_init (record { consumed = c; has_next = true; request = r; state = init }) text)
  unfolding parse_init
  parse_init-StepOk c r text h e =
      let next_begin = find b'\r' text + 2 in
      let Ok = StepOk r.headers 3 text in
      Holds-if B Ok (line_ends text && not (find b'\r' text == 0)) _ _
        (λ l.
          Holds-bind B (Keeps B r.headers) Ok (parse_next_line r (take next_begin text)) _
            (parse_next_line-Keeps B r (take next_begin text) (take-Bounded B next_begin text h))
            λ x k.
              Holds-if B Ok x.0 _ _
                (λ _.
                  (k, λ _. ground arith, λ _. inr (refl, (omega (arith, e), ground (arith, l)))))
                (λ _. (k, λ d. absurd (ground arith), λ d. absurd (ground arith))))
        (λ _. (refl, λ _. omega arith, λ _. inl e))

  store_header-dead :
      (p : Parse) (text : List ℕ)
      → (find b'\r' text == 0) ≡ true
      → store_header p text ≡ done (false, p)
  unfolding store_header
  store_header-dead p text h = let e : find b'\r' text ≡ 0 = ground (arith, h) in rw e refl

  parse_next_header-StepOk :
      (c : ℕ) (r : Request) (text : List ℕ)
      → Taken text (record { consumed = c; has_next = true; request = r; state = next_header })
      → Holds B (StepOk r.headers 2 text) (
          parse_next_header
            (record { consumed = c; has_next = true; request = r; state = next_header })
            text)
  unfolding parse_next_header
  parse_next_header-StepOk c r text k =
      let p : Parse = record { consumed = c; has_next = true; request = r; state = next_header } in
      let Ok = StepOk r.headers 2 text in
      Holds-if B Ok (line_ends text) _ _
        (λ _.
          Holds-if B Ok (find b'\r' text == 0) _ _
            (λ z.
              rw (store_header-dead p text z)
                (refl, λ d. absurd (ground arith), λ d. absurd (ground arith)))
            (λ _. (refl, λ _. omega arith, λ _. k)))
        (λ _. (refl, λ _. omega arith, λ _. k))

  parse_step-StepOk :
      (c : ℕ) (r : Request) (s : StreamState) (text : List ℕ)
      → Bounded B text
      → Taken text (record { consumed = c; has_next = true; request = r; state = s })
      → Holds B
          (StepOk r.headers (rank_of s) text)
          (parse_step (record { consumed = c; has_next = true; request = r; state = s }) text)
  unfolding parse_step
  parse_step-StepOk c r init text h (inl e) = parse_init-StepOk c r text h e
  parse_step-StepOk c r init text h (inr k) = absurd (ground (arith, k.0))
  parse_step-StepOk c r next_header text h k = parse_next_header-StepOk c r text k
  parse_step-StepOk c r next_body text h k = (refl, λ _. omega arith, λ _. k)
  parse_step-StepOk c r ready text h k = (refl, λ _. omega arith, λ _. k)

  count-Taken :
      (text : List ℕ) (p : Parse) → Taken text p → (p.consumed ≡ 0) ⊎ IsLine text p.consumed
  count-Taken text p (inl e) = inl e
  count-Taken text p (inr k) = inr k.1

  rounds-ParseOk :
      (n : ℕ) (c : ℕ) (b : Bool) (r : Request) (s : StreamState) (text : List ℕ)
      → (if b then rank_of s else 0) ≤ n
      → Bounded B text
      → Taken text (record { consumed = c; has_next = b; request = r; state = s })
      → Holds B
          (ParseOk r.headers text)
          (parse_rounds n (record { consumed = c; has_next = b; request = r; state = s }) text)
  unfolding parse_rounds
  rounds-ParseOk zero c false r s text m h k =
      (refl, count-Taken text (record { consumed = c; has_next = false; request = r; state = s }) k)
  rounds-ParseOk zero c true r init text m h k = absurd (omega arith)
  rounds-ParseOk zero c true r next_header text m h k = absurd (omega arith)
  rounds-ParseOk zero c true r next_body text m h k = absurd (omega arith)
  rounds-ParseOk zero c true r ready text m h k = absurd (omega arith)
  rounds-ParseOk (suc n) c false r s text m h k =
      (refl, count-Taken text (record { consumed = c; has_next = false; request = r; state = s }) k)
  rounds-ParseOk (suc n) c true r s text m h k =
      let p : Parse = record { consumed = c; has_next = true; request = r; state = s } in
      Holds-bind B (StepOk r.headers (rank_of s) text) (ParseOk r.headers text) (parse_step p text)
        _ (parse_step-StepOk c r s text h k)
        λ x ok.
          Holds-if B (ParseOk r.headers text) x.0 _ _
            (λ t.
              subst (λ headers. Holds B (ParseOk headers text) (parse_rounds n x.1 text)) ok.0
                (rounds-ParseOk n x.1.consumed x.1.has_next x.1.request x.1.state text
                  (omega (arith, ok.1 t, m)) h (ok.2 t)))
            (λ _. ok.0)

three_rounds : (s : StreamState) → rank_of s ≤ 3
three_rounds init = omega arith
three_rounds next_header = omega arith
three_rounds next_body = omega arith
three_rounds ready = omega arith

-- `parse` of any bytes in any state ends within its rounds, unless it throws or reads behind a
-- literal: it leaves the headers as they were, and takes nothing or the whole first line.
pub parse_ends :
    (request : Request) (state : StreamState) (text : List ℕ)
    → Holds Unit (ParseOk request.headers text) (parse request state text)
parse_ends request state text =
    rounds-ParseOk Unit 3 0 true request state text (three_rounds state) (inr tt) (inl refl)

-- `parse` of bytes without a zero reads behind no literal.
pub parse_in_bounds :
    (request : Request) (state : StreamState) (text : List ℕ)
    → Lacks 0 text
    → Holds ⊥ (ParseOk request.headers text) (parse request state text)
parse_in_bounds request state text h =
    rounds-ParseOk ⊥ 3 0 true request state text (three_rounds state) (inl h) (inl refl)
