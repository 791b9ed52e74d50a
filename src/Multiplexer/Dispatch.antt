-- ===== src/Multiplexer/Dispatch.antt =====
-- include/network/Multiplexer.h: every event reaches the vector of its token.
use fluent_net.Prelude.{
  ℕ, ◌<◌, true, none, some, List, [], ◌∷◌, ◌++◌, ◌≡◌, refl, sym, ap, subst, ◌∙◌, inl, inr,
  get_elem?, length, if◌then◌else◌, ◌==◌, arith, Bool-cases, Option-cases, All, get_elem?-set,
  get_elem?-some, length-set, append-nil, append_assoc,
}
use fluent_net.Errors.{ok}
use fluent_net.Multiplexer.{
  Event, Multiplexer, waited, visit, put_event, put_events, dispatch_active_context,
  reserve_if_full, poll,
}

module _ {E : Type 0} where
  -- The events of a token, in their order.
  abbrev pub events_of : ℕ → List (Event E) → List (Event E)
  events_of t [] = []
  events_of t (e ∷ es) = let rest = events_of t es in if t == e.token then e ∷ rest else rest

  -- The event belongs to a token that was handed out.
  abbrev pub IsKnown : Multiplexer E → Event E → Type 0
  IsKnown m e = e.token < length m.event_vectors

  abbrev look : List (List (Event E)) → ℕ → List (Event E)
  look vectors t = elim (get_elem? vectors t) [ none ↦ [] | some events ↦ events ]

  look-put_event :
      (vectors : List (List (Event E))) (e : Event E) (t : ℕ)
      → e.token < length vectors
      → look (put_event vectors e) t ≡ look vectors t ++ events_of t (e ∷ [])
  look-put_event vectors e t h =
      let (old, found) = get_elem?-some vectors e.token h in
      elim (Bool-cases (t == e.token)) [
        | inl y ↦
            let here : t ≡ e.token = ground arith in
            let itself : (e.token == e.token) ≡ true = ground arith in
            rw
              (
                here,
                put_event,
                look,
                found,
                get_elem?-set vectors e.token e.token (old ++ e ∷ []) h,
                itself,
              )
              refl
        | inr n ↦
            rw (put_event, look, found, get_elem?-set vectors e.token t (old ++ e ∷ []) h, n)
              (sym (append-nil (look vectors t)))
      ]

  pub length-put_event :
      (vectors : List (List (Event E))) (e : Event E)
      → length (put_event vectors e) ≡ length vectors
  length-put_event vectors e = elim (Option-cases (get_elem? vectors e.token)) [
    | inl n ↦ rw (put_event, n) refl
    | inr (old, found) ↦ rw (put_event, found) (length-set vectors e.token (old ++ e ∷ []))
  ]

  abbrev IsWithin : ℕ → Event E → Type 0
  IsWithin n e = e.token < n

  events_of-append :
      (t : ℕ) (es fs : List (Event E)) → events_of t (es ++ fs) ≡ events_of t es ++ events_of t fs
  events_of-append t [] fs = refl
  events_of-append t (e ∷ es) fs = elim (Bool-cases (t == e.token)) [
    | inl y ↦ rw y (ap (◌∷◌ e) (events_of-append t es fs))
    | inr n ↦ rw n (events_of-append t es fs)
  ]

  look-put_events :
      (es : List (Event E)) (vectors : List (List (Event E))) (t : ℕ)
      → All (IsWithin (length vectors)) es
      → look (put_events vectors es) t ≡ look vectors t ++ events_of t es
  look-put_events [] vectors t h = sym (append-nil (look vectors t))
  look-put_events (e ∷ es) vectors t (h, hs) =
      let within = subst (λ n. All (IsWithin n) es) (sym (length-put_event vectors e)) hs in
      look-put_events es (put_event vectors e) t within
      ∙ ap (λ l. l ++ events_of t es) (look-put_event vectors e t h)
      ∙ append_assoc (look vectors t) (events_of t (e ∷ [])) (events_of t es)
      ∙ ap (λ l. look vectors t ++ l) (sym (events_of-append t (e ∷ []) es))

  visit-reserve : (n t : ℕ) (m : Multiplexer E) → visit t (reserve_if_full n m) ≡ visit t m
  unfolding visit reserve_if_full
  visit-reserve n t m = elim (Bool-cases (m.event_size == n)) [
    | inl y ↦ rw (reserve_if_full, y) refl
    | inr f ↦ rw (reserve_if_full, f) refl
  ]

  visit-dispatch :
      (es : List (Event E)) (m : Multiplexer E) (t : ℕ)
      → All (IsKnown m) es
      → visit t (dispatch_active_context es m) ≡ visit t m ++ events_of t es
  unfolding visit dispatch_active_context
  visit-dispatch es m t h = look-put_events es m.event_vectors t h

  -- A poll whose events belong to tokens that were handed out: each vector gets the events of its
  -- token behind those that it holds, in the order of epoll, and none is lost.
  pub poll_delivers :
      (es : List (Event E)) (m : Multiplexer E) (t : ℕ)
      → All (IsKnown m) es
      → ((poll (waited es) m).0 ≡ ok tt)
        × (visit t (poll (waited es) m).1 ≡ visit t m ++ events_of t es)
  unfolding poll
  poll_delivers es m t h =
      (refl, visit-reserve (length es) t (dispatch_active_context es m) ∙ visit-dispatch es m t h)
