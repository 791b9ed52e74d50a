-- ===== src/Reactor/Batches.antt =====
-- include/app/Server.h: a server that polls itself handles no report whose connection is gone.
use fluent_net.Prelude.{
  ℕ, true, false, Option, none, some, List, [], ◌∷◌, ◌++◌, ◌≡◌, refl, sym, ap, subst, ◌∙◌, All,
  if-both, if-false, ◌==◌,
}
use fluent_net.Errors.{Result, ok, throw, eintr}
use fluent_net.Handler.{Handler, Answers}
use fluent_net.Multiplexer.{Multiplexer, Event, Waited, waited, wait_failed, visit}
use fluent_net.Multiplexer
use fluent_net.Multiplexer.Dispatch.{events_of, IsKnown, poll_delivers}
use fluent_net.WeakReference.Bounds.{IsBounded}
use fluent_net.Reactor.{Report, Reactor, Slots, add_connection, poll}
use fluent_net.Address.{InetAddress}
use fluent_net.Acceptor.{take_connection}
use fluent_net.Reactor.Servers.{
  Server, Inputs, Batch, Leaves, take_in, accept, serve, after_poll, batch,
}
use fluent_net.Reactor.Safety.{
  AreThere, IsSound, add_connection-has, add_connection-IsBounded, handle_events-IsSound,
}
use fluent_net.Reactor.Tables.{has, is_open_at, has-is_at}

module _ (h : Handler) where
  take_in-both :
      (P : Reactor → Type 0) (inputs : Inputs) (r : Reactor) (c : Option (InetAddress × Option ℕ))
      → P r
      → P (add_connection h inputs.registered r).1
      → P (take_in h inputs r c)
  take_in-both P inputs r none p q = p
  take_in-both P inputs r (some c) p q = q

  -- What a reactor needs to be served: its pool is bounded, it polls itself, and the connections of its
  -- reports are there.
  pub record CanServe (r : Reactor) : Type 0 where
    pub bounded : IsBounded r.connections
    pub own : r.is_outer ≡ false
    pub there : AreThere r.connections.container (visit r.token r.multiplexer)

  -- The reports are about connections that are there and that the pool would not give up.
  abbrev pub AreOpen : Slots → List (Event Report) → Type 0
  AreOpen slots = All (λ e. has (is_open_at e.report.bundle) slots ≡ true)

  pub open-AreThere : (xs : Slots) (es : List (Event Report)) → AreOpen xs es → AreThere xs es
  open-AreThere xs [] t = tt
  open-AreThere xs (e ∷ es) (t, ts) = (has-is_at e.report.bundle xs t, open-AreThere xs es ts)

  added-AreThere :
      (answers : Answers) (r : Reactor) (es : List (Event Report))
      → IsBounded r.connections
      → AreOpen r.connections.container es
      → AreThere (add_connection h answers r).1.connections.container es
  added-AreThere answers r [] b t = tt
  added-AreThere answers r (e ∷ es) b (t, ts) =
      (add_connection-has h answers r e.report.bundle b t, added-AreThere answers r es b ts)

  accept-CanServe :
      (inputs : Inputs) (s : Server)
      → IsBounded s.reactor.connections
      → s.reactor.is_outer ≡ false
      → AreOpen s.reactor.connections.container (visit s.reactor.token s.reactor.multiplexer)
      → CanServe (accept h inputs s).reactor
  unfolding add_connection accept
  accept-CanServe inputs s bounded own t =
      let r = s.reactor in
      let es = visit r.token r.multiplexer in
      take_in-both CanServe inputs r (take_connection inputs.accepted s.acceptor).0
        (record {
          bounded = bounded;
          own = own;
          there = open-AreThere r.connections.container es t;
        })
        (record {
          bounded = add_connection-IsBounded h inputs.registered r bounded;
          own = own;
          there = added-AreThere inputs.registered r es bounded t;
        })

  -- The kernel reports, for this reactor, connections that are in its pool and neither DISCONNECTED nor
  -- given up; and bundles of tokens that were handed out.
  abbrev pub KernelReports : Reactor → Waited Report → Type 0
  KernelReports r (waited es) =
      All (IsKnown r.multiplexer) es × AreOpen r.connections.container (events_of r.token es)
  KernelReports r (wait_failed errno) = Unit

  -- The rest of a batch, behind the poll.
  polled-IsSound :
      (inputs : Inputs) (s : Server)
      → IsBounded s.reactor.connections
      → s.reactor.is_outer ≡ false
      → AreOpen s.reactor.connections.container (visit s.reactor.token s.reactor.multiplexer)
      → (result : Result (Unit {0})) × (t : Server) × (after_poll h inputs s (ok tt, s.reactor)
          ≡ some (result, t))
        × IsSound t.reactor
  polled-IsSound inputs s bounded own t =
      let a = accept h inputs s in
      let can = accept-CanServe inputs s bounded own t in
      let (r', done, sound) = handle_events-IsSound h a.reactor can.bounded can.own can.there in
      (ok tt, record a { reactor = r' }, ap (serve h a) done, sound)

  pub polls_waited :
      (r : Reactor) (answer : Waited Report)
      → r.is_outer ≡ false
      → poll answer r ≡ (
        (Multiplexer.poll answer r.multiplexer).0,
        record r { multiplexer = (Multiplexer.poll answer r.multiplexer).1 },
      )
  unfolding poll
  polls_waited r answer own = if-false r.is_outer _ _ own

  pub failed_same :
      (errno : ℕ) (m : Multiplexer Report) → (Multiplexer.poll (wait_failed errno) m).1 ≡ m
  unfolding Multiplexer.poll
  failed_same errno m =
      if-both (λ (x : Result (Unit {0}) × Multiplexer Report). x.1 ≡ m) (errno == eintr) _ _ refl
        refl

  -- A batch that comes to something, and leaves no report.
  abbrev pub IsServed : Batch Server → Type 0
  IsServed b = Leaves (λ s. IsSound s.reactor) b

  served :
      (b : Batch Server) (result : Result (Unit {0})) (t : Server)
      → b ≡ some (result, t)
      → IsSound t.reactor
      → IsServed b
  served b result t e sound = subst IsServed (sym e) sound

  polled-IsServed :
      (inputs : Inputs) (s : Server) (m : Multiplexer Report) (es : List (Event Report))
      → IsSound s.reactor
      → visit s.reactor.token m ≡ es
      → AreOpen s.reactor.connections.container es
      → IsServed (after_poll h inputs s (ok tt, record (s.reactor) { multiplexer = m }))
  polled-IsServed inputs s m es sound vector reported =
      let t : Server = record s { reactor = record (s.reactor) { multiplexer = m } } in
      let waiting = subst (AreOpen s.reactor.connections.container) (sym vector) reported in
      let (result, last, e, kept) = polled-IsSound inputs t sound.bounded sound.own waiting in
      served (after_poll h inputs t (ok tt, t.reactor)) result last e kept

  failed-IsServed :
      (inputs : Inputs) (s : Server) (result : Result (Unit {0})) (m : Multiplexer Report)
      → m ≡ s.reactor.multiplexer
      → IsSound s.reactor
      → IsServed (after_poll h inputs s (result, record (s.reactor) { multiplexer = m }))
  failed-IsServed inputs s (throw e) m same sound =
      subst (λ x. IsSound (record (s.reactor) { multiplexer = x })) (sym same) sound
  failed-IsServed inputs s (ok u) m same sound =
      polled-IsServed inputs s m [] sound (ap (visit s.reactor.token) same ∙ sound.handled_all) tt

  waited-IsServed :
      (inputs : Inputs) (s : Server) (answer : Waited Report)
      → IsSound s.reactor
      → KernelReports s.reactor answer
      → (let (result, m) = Multiplexer.poll answer s.reactor.multiplexer in
          IsServed (after_poll h inputs s (result, record (s.reactor) { multiplexer = m })))
  unfolding Multiplexer.poll
  waited-IsServed inputs s (waited es) sound (known, reported) =
      let r = s.reactor in
      polled-IsServed inputs s (Multiplexer.poll (waited es) r.multiplexer).1 (events_of r.token es)
        sound
        ((poll_delivers es r.multiplexer r.token known).1
          ∙ ap (λ v. v ++ events_of r.token es) sound.handled_all)
        reported
  waited-IsServed inputs s (wait_failed errno) sound k =
      failed-IsServed inputs s (Multiplexer.poll (wait_failed errno) s.reactor.multiplexer).0
        (Multiplexer.poll (wait_failed errno) s.reactor.multiplexer).1
        (failed_same errno s.reactor.multiplexer) sound

  -- A batch of a server that polls itself, between two batches with no report waiting: whatever the
  -- kernel answers, as long as it reports connections that are in the pool and in use, every report
  -- finds its connection, also behind the `accept` of the batch, and none is left waiting.
  pub batch-IsServed :
      (inputs : Inputs) (s : Server)
      → IsSound s.reactor
      → KernelReports s.reactor inputs.waited
      → IsServed (batch h inputs s)
  unfolding batch
  batch-IsServed inputs s sound k =
      subst (λ x. IsServed (after_poll h inputs s x))
        (sym (polls_waited s.reactor inputs.waited sound.own))
        (waited-IsServed inputs s inputs.waited sound k)
