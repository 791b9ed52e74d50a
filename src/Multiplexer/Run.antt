-- ===== src/Multiplexer/Run.antt =====
-- include/network/Multiplexer.h: what holds after any calls.
use fluent_net.Prelude.{
  List, [], ◌∷◌, ◌≡◌, refl, sym, ◌∙◌, inl, inr, length, ◌==◌, arith, Bool-cases, length-append,
  get_elem?-end,
}
use fluent_net.Errors.{eintr}
use fluent_net.Multiplexer.{
  Event, Multiplexer, Waited, waited, wait_failed, new, token, visit, put_event, put_events,
  dispatch_active_context, reserve_if_full, poll,
}
use fluent_net.Multiplexer.Dispatch.{length-put_event}

pub data Step (E : Type 0) : Type 0 where
  take_token : Step E
  wait : Waited E → Step E

module _ {E : Type 0} where
  unfoldable pub run : List (Step E) → Multiplexer E → Multiplexer E
  run [] m = m
  run (take_token ∷ steps) m = run steps (token m).1
  run (wait answer ∷ steps) m = run steps (poll answer m).1

  length-put_events :
      (es : List (Event E)) (vectors : List (List (Event E)))
      → length (put_events vectors es) ≡ length vectors
  length-put_events [] vectors = refl
  length-put_events (e ∷ es) vectors =
      length-put_events es (put_event vectors e) ∙ length-put_event vectors e

  -- The tokens are the indices of the vectors, and `_events` keeps its size.
  pub record IsNumbered (m : Multiplexer E) : Type 0 where
    pub numbered : m.next_token ≡ length m.event_vectors
    pub size : m.event_size ≡ 16

  poll-IsNumbered :
      (answer : Waited E) (m : Multiplexer E) → IsNumbered m → IsNumbered (poll answer m).1
  unfolding poll dispatch_active_context reserve_if_full
  poll-IsNumbered (waited es) m h = elim (Bool-cases (m.event_size == length es)) [
    | inl y ↦
        rw (reserve_if_full, y)
          (record {
            numbered = h.numbered ∙ sym (length-put_events es m.event_vectors);
            size = h.size;
          })
    | inr f ↦
        rw (reserve_if_full, f)
          (record {
            numbered = h.numbered ∙ sym (length-put_events es m.event_vectors);
            size = h.size;
          })
  ]
  poll-IsNumbered (wait_failed errno) m h = elim (Bool-cases (errno == eintr)) [
    | inl y ↦ rw y h
    | inr f ↦ rw f h
  ]

  token-IsNumbered : (m : Multiplexer E) → IsNumbered m → IsNumbered (token m).1
  unfolding token
  token-IsNumbered m h = record {
    numbered = omega (arith, h.numbered, length-append m.event_vectors ([] ∷ []));
    size = h.size;
  }

  run-IsNumbered :
      (steps : List (Step E)) (m : Multiplexer E) → IsNumbered m → IsNumbered (run steps m)
  unfolding run
  run-IsNumbered [] m h = h
  run-IsNumbered (take_token ∷ steps) m h = run-IsNumbered steps (token m).1 (token-IsNumbered m h)
  run-IsNumbered (wait answer ∷ steps) m h =
      run-IsNumbered steps (poll answer m).1 (poll-IsNumbered answer m h)

  -- After any calls: the next token is the number of vectors, so that it is new and `visit` of it finds
  -- the empty vector that is made for it.
  pub token_fresh :
      (steps : List (Step E))
      → (let m = run steps new in
          ((token m).0 ≡ length m.event_vectors) × (visit (token m).0 (token m).1 ≡ []))
  unfolding token visit
  token_fresh steps =
      let m : Multiplexer E = run steps new in
      let h = (run-IsNumbered steps new (record { numbered = refl; size = refl })).numbered in
      (h, rw (visit, h, get_elem?-end m.event_vectors []) refl)

  -- After any calls, however often the events have filled `_events`, its size is 16 still: `reserve`
  -- changes the capacity only.
  pub poll_never_grows : (steps : List (Step E)) → (run steps new).event_size ≡ 16
  poll_never_grows steps = (run-IsNumbered steps new (record { numbered = refl; size = refl })).size
