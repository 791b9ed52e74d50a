-- ===== src/Reactor/Clients.antt =====
-- include/app/Client.h: a client that polls itself handles no report whose connection is gone.
use fluent_net.Prelude.{
  ℕ, none, some, List, [], ◌∷◌, ◌++◌, ◌≡◌, refl, sym, ap, subst, ◌∙◌, length, ◌==◌, Bool-cases, inl,
  inr, suc,
}
use fluent_net.Errors.{Result, ok, throw}
use fluent_net.Handler.{Handler, Answers}
use fluent_net.Multiplexer.{Multiplexer, Event, Waited, waited, wait_failed, visit}
use fluent_net.Multiplexer
use fluent_net.Multiplexer.Dispatch.{events_of, poll_delivers}
use fluent_net.Reactor.{Report, Reactor, Slots, add_connection}
use fluent_net.Reactor.Servers.{
  Batch, Leaves, ClientInputs, guard_bundle, connect_then, connect_all, finish_client,
  client_after_poll, client_batch,
}
use fluent_net.Reactor.Safety.{
  IsSound, same-IsBounded, add_connection-IsBounded, handle_events-IsSound,
}
use fluent_net.Reactor.Batches.{AreOpen, KernelReports, open-AreThere, polls_waited, failed_same}

length-guard_bundle : (b : ℕ) (xs : Slots) → length (guard_bundle b xs) ≡ length xs
unfolding guard_bundle
length-guard_bundle b [] = refl
length-guard_bundle b (none ∷ xs) = ap suc (length-guard_bundle b xs)
length-guard_bundle b (some c ∷ xs) = elim (Bool-cases (c.bundle == b)) [
  | inl y ↦ rw y refl
  | inr n ↦ rw n (ap suc (length-guard_bundle b xs))
]

module _ (h : Handler) where
  pub connect_then-IsSound :
      (answers : Answers) (r : Reactor) → IsSound r → IsSound (connect_then h answers r)
  unfolding connect_then add_connection
  connect_then-IsSound answers r s =
      let (bundle, r') = add_connection h answers r in
      record {
        bounded =
            same-IsBounded r'.connections (guard_bundle bundle r'.connections.container)
              (add_connection-IsBounded h answers r s.bounded)
              (length-guard_bundle bundle r'.connections.container);
        handled_all = s.handled_all;
        own = s.own;
      }

  pub connect_all-IsSound :
      (connected : List Answers) (r : Reactor) → IsSound r → IsSound (connect_all h connected r)
  unfolding connect_all
  connect_all-IsSound [] r s = s
  connect_all-IsSound (answers ∷ later) r s =
      connect_all-IsSound later (connect_then h answers r) (connect_then-IsSound answers r s)

  -- A batch that comes to something, and leaves no report.
  abbrev pub IsClientServed : Batch Reactor → Type 0
  IsClientServed b = Leaves IsSound b

  reported-IsClientServed :
      (inputs : ClientInputs) (r : Reactor) (m : Multiplexer Report) (es : List (Event Report))
      → IsSound r
      → visit r.token m ≡ es
      → AreOpen h r.connections.container es
      → IsClientServed (client_after_poll h inputs (ok tt, record r { multiplexer = m }))
  reported-IsClientServed inputs r m es s vector reported =
      let t : Reactor = record r { multiplexer = m } in
      let open_reports = subst (AreOpen h r.connections.container) (sym vector) reported in
      let there = open-AreThere h r.connections.container (visit r.token m) open_reports in
      let (r', done, sound) = handle_events-IsSound h t s.bounded s.own there in
      subst (λ x. IsClientServed (finish_client h inputs x)) (sym done)
        (connect_all-IsSound inputs.connected r' sound)

  failed-IsClientServed :
      (inputs : ClientInputs) (r : Reactor) (result : Result (Unit {0})) (m : Multiplexer Report)
      → m ≡ r.multiplexer
      → IsSound r
      → IsClientServed (client_after_poll h inputs (result, record r { multiplexer = m }))
  failed-IsClientServed inputs r (throw e) m same s =
      subst (λ x. IsSound (record r { multiplexer = x })) (sym same) s
  failed-IsClientServed inputs r (ok u) m same s =
      reported-IsClientServed inputs r m [] s (ap (visit r.token) same ∙ s.handled_all) tt

  waited-IsClientServed :
      (inputs : ClientInputs) (r : Reactor) (answer : Waited Report)
      → IsSound r
      → KernelReports h r answer
      → (let (result, m) = Multiplexer.poll answer r.multiplexer in
          IsClientServed (client_after_poll h inputs (result, record r { multiplexer = m })))
  unfolding Multiplexer.poll
  waited-IsClientServed inputs r (waited es) s (known, reported) =
      reported-IsClientServed inputs r (Multiplexer.poll (waited es) r.multiplexer).1
        (events_of r.token es) s
        ((poll_delivers es r.multiplexer r.token known).1
          ∙ ap (λ v. v ++ events_of r.token es) s.handled_all)
        reported
  waited-IsClientServed inputs r (wait_failed errno) s k =
      failed-IsClientServed inputs r (Multiplexer.poll (wait_failed errno) r.multiplexer).0
        (Multiplexer.poll (wait_failed errno) r.multiplexer).1 (failed_same h errno r.multiplexer) s

  -- A batch of a client that polls itself, between two batches with no report waiting: whatever the
  -- kernel answers, as long as it reports connections that are in the pool and in use, every report
  -- finds its connection, and none is left waiting once the connections that have come through are in
  -- the pool.
  pub client_batch-IsClientServed :
      (inputs : ClientInputs) (r : Reactor)
      → IsSound r
      → KernelReports h r inputs.waited
      → IsClientServed (client_batch h inputs r)
  unfolding client_batch
  client_batch-IsClientServed inputs r s k =
      subst (λ x. IsClientServed (client_after_poll h inputs x))
        (sym (polls_waited h r inputs.waited s.own))
        (waited-IsClientServed inputs r inputs.waited s k)
