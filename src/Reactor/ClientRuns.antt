-- ===== src/Reactor/ClientRuns.antt =====
-- include/app/Client.h: whole runs of a client that has its own multiplexer. Between the handling of
-- reports and the next poll, connections come through and are put into the pool.
use fluent_net.Prelude.{
  ℕ, suc, ◌<◌, ◌≤◌, Bool, true, false, ◌||◌, none, some, Option, List, [], ◌∷◌, ◌≡◌, refl, sym, ap,
  subst, ◌∙◌, ◌⊎◌, inl, inr, arith, All, Bool-cases, ◌==◌,
}
use fluent_net.Errors.{Result, ok, throw}
use fluent_net.Handler.{Handler, Answers, handle_new_context}
use fluent_net.Multiplexer.{Event, Waited, waited, wait_failed}
use fluent_net.Multiplexer.Dispatch.{events_of, IsKnown}
use fluent_net.WeakReference.Bounds.{IsBounded}
use fluent_net.Pool.{Connection, slot_is_reusable, emplace}
use fluent_net.Pool.Emplace.{emplace_lem}
use fluent_net.Reactor.{Report, Reactor, Slots, add_connection, new_connection, poll}
use fluent_net.Reactor.Servers.{
  Batch, ClientInputs, ensure_lifecycle, guard_bundle, connect_then, connect_all, handle_and_loop,
  finish_client, client_after_poll, client_batch, run_on, client_run, new_reactor,
}
use fluent_net.Reactor.Tables.{has, is_open_at, has-IsPlaced, has-set}
use fluent_net.Reactor.Safety.{IsSound, closed_slot}
use fluent_net.Reactor.Batches.{AreOpen, KernelReports}
use fluent_net.Reactor.Runs.{Continues, new_reactor-IsSound}
use fluent_net.Reactor.Clients.{
  connect_then-IsSound, connect_all-IsSound, IsClientServed, client_batch-IsClientServed,
}

-- A guard that no one else holds does not keep a connection from being given up, so the connection is
-- in use with it exactly if it is without.
guarded_same :
    (b : ℕ) (c : Connection)
    → is_open_at b (record c { use_count = ensure_lifecycle c.use_count }) ≡ is_open_at b c
unfolding slot_is_reusable
guarded_same b c = ground arith

has-guard_bundle :
    (a b : ℕ) (xs : Slots) → has (is_open_at b) (guard_bundle a xs) ≡ has (is_open_at b) xs
unfolding guard_bundle
has-guard_bundle a b [] = refl
has-guard_bundle a b (none ∷ xs) = has-guard_bundle a b xs
has-guard_bundle a b (some c ∷ xs) = elim (Bool-cases (c.bundle == a)) [
  | inl y ↦ rw y (ap (λ test. test || has (is_open_at b) xs) (guarded_same b c))
  | inr n ↦ rw n (ap (λ rest. is_open_at b c || rest) (has-guard_bundle a b xs))
]

newer_differs : (b : ℕ) (c : Connection) → b < c.bundle → is_open_at b c ≡ false
newer_differs b c h = ground (arith, h)

module _ (h : Handler) where
  -- A new connection takes no place of an older one that is in use.
  add_connection-open :
      (answers : Answers) (r : Reactor) (b : ℕ)
      → IsBounded r.connections
      → b < r.next_bundle
      → has (is_open_at b) r.connections.container ≡ true
      → has (is_open_at b) (add_connection h answers r).1.connections.container ≡ true
  unfolding add_connection
  add_connection-open answers r b bounded older t =
      let c = new_connection r.next_bundle r.token in
      let (_, found, placed) = emplace_lem r.connections c bounded in
      let (index, p) = emplace r.connections c in
      let c' : Connection = record c { world = (handle_new_context h answers c.world).1 } in
      has-set (is_open_at b) p.container index c c' found
        (newer_differs b c' older ∙ sym (newer_differs b c older))
      ∙ has-IsPlaced (is_open_at b) c r.connections.container p.container (closed_slot b) placed t

  connect_then-open :
      (answers : Answers) (r : Reactor) (b : ℕ)
      → IsBounded r.connections
      → b < r.next_bundle
      → has (is_open_at b) r.connections.container ≡ true
      → has (is_open_at b) (connect_then h answers r).connections.container ≡ true
  unfolding connect_then
  connect_then-open answers r b bounded older t =
      let (bundle, r') = add_connection h answers r in
      has-guard_bundle bundle b r'.connections.container
      ∙ add_connection-open answers r b bounded older t

  next_bundle-connect_then :
      (answers : Answers) (r : Reactor) → (connect_then h answers r).next_bundle ≡ suc r.next_bundle
  unfolding connect_then add_connection
  next_bundle-connect_then answers r = refl

  connect_all-open :
      (connected : List Answers) (r : Reactor) (b : ℕ)
      → IsSound r
      → b < r.next_bundle
      → has (is_open_at b) r.connections.container ≡ true
      → has (is_open_at b) (connect_all h connected r).connections.container ≡ true
  unfolding connect_all
  connect_all-open [] r b s older t = t
  connect_all-open (answers ∷ later) r b s older t =
      connect_all-open later (connect_then h answers r) b (connect_then-IsSound h answers r s)
        (omega (arith, older, next_bundle-connect_then answers r))
        (connect_then-open answers r b s.bounded older t)

  -- What a report may be about, where `earlier` is the client before the connections of its last batch
  -- came through: a connection that was in use then, or a newer one that is in use now.
  abbrev pub IsReported : Reactor → Reactor → ℕ → Type 0
  IsReported earlier r b =
      ((b < earlier.next_bundle) × (has (is_open_at b) earlier.connections.container ≡ true))
      ⊎ ((earlier.next_bundle ≤ b) × (has (is_open_at b) r.connections.container ≡ true))

  abbrev pub ReportsKnown : Reactor → Reactor → Waited Report → Type 0
  ReportsKnown earlier r (waited es) =
      All (IsKnown r.multiplexer) es
      × All (λ e. IsReported earlier r e.report.bundle) (events_of r.token es)
  ReportsKnown earlier r (wait_failed errno) = Unit

  reported-AreOpen :
      (connected : List Answers) (earlier : Reactor) (es : List (Event Report))
      → IsSound earlier
      → All (λ e. IsReported earlier (connect_all h connected earlier) e.report.bundle) es
      → AreOpen h (connect_all h connected earlier).connections.container es
  reported-AreOpen connected earlier [] s k = tt
  reported-AreOpen connected earlier (e ∷ es) s (inl (older, t), k) = (
    connect_all-open connected earlier e.report.bundle s older t,
    reported-AreOpen connected earlier es s k,
  )
  reported-AreOpen connected earlier (e ∷ es) s (inr (newer, t), k) =
      (t, reported-AreOpen connected earlier es s k)

  known-KernelReports :
      (connected : List Answers) (earlier : Reactor) (answer : Waited Report)
      → IsSound earlier
      → ReportsKnown earlier (connect_all h connected earlier) answer
      → KernelReports h (connect_all h connected earlier) answer
  known-KernelReports connected earlier (waited es) s (known, reported) = (
    known,
    reported-AreOpen connected earlier (events_of (connect_all h connected earlier).token es) s
        reported,
  )
  known-KernelReports connected earlier (wait_failed errno) s k = tt

  -- The batch without the connections that come through in it.
  abbrev pub before_connects : ClientInputs → ClientInputs
  before_connects inputs = record inputs { connected = [] }

  abbrev then_connects : List Answers → Batch Reactor → Batch Reactor
  then_connects connected none = none
  then_connects connected (some (throw e, r)) = some (throw e, r)
  then_connects connected (some (ok u, r)) = some (ok u, connect_all h connected r)

  finish_connects :
      (inputs : ClientInputs) (handled : Option Reactor)
      → finish_client h inputs handled
        ≡ then_connects inputs.connected (finish_client h (before_connects inputs) handled)
  unfolding connect_all
  finish_connects inputs none = refl
  finish_connects inputs (some r) = refl

  after_poll_connects :
      (inputs : ClientInputs) (polled : Result (Unit {0}) × Reactor)
      → client_after_poll h inputs polled
        ≡ then_connects inputs.connected (client_after_poll h (before_connects inputs) polled)
  after_poll_connects inputs (throw e, r) = refl
  after_poll_connects inputs (ok u, r) = finish_connects inputs (handle_and_loop h r)

  batch_connects :
      (inputs : ClientInputs) (r : Reactor)
      → client_batch h inputs r
        ≡ then_connects inputs.connected (client_batch h (before_connects inputs) r)
  unfolding client_batch
  batch_connects inputs r = after_poll_connects inputs (poll inputs.waited r)

  -- In every batch of a run the kernel reports what it may then. The connections are those that have
  -- come through in the batch before.
  abbrev pub ClientReports : List ClientInputs → List Answers → Reactor → Type 0
  ClientReports [] connected earlier = Unit
  ClientReports (inputs ∷ later) connected earlier =
      let r = connect_all h connected earlier in
      ReportsKnown earlier r inputs.waited
      × Continues inputs.stops (ClientReports later inputs.connected)
          (client_batch h (before_connects inputs) r)

  run_on-IsClientServed :
      (stops : Bool) (connected : List Answers) (P : Reactor → Type 0)
      (later : Reactor → Batch Reactor) (b : Batch Reactor)
      → IsClientServed h b
      → Continues stops P b
      → ((r : Reactor) → IsSound r → P r → IsClientServed h (later (connect_all h connected r)))
      → IsClientServed h (run_on stops later (then_connects connected b))
  run_on-IsClientServed stops connected P later none served c go = elim served [ ]
  run_on-IsClientServed stops connected P later (some (throw e, r)) sound c go = sound
  run_on-IsClientServed true connected P later (some (ok u, r)) sound c go =
      connect_all-IsSound h connected r sound
  run_on-IsClientServed false connected P later (some (ok u, r)) sound c go = go r sound c

  client_run-IsClientServed :
      (inputs : List ClientInputs) (connected : List Answers) (earlier : Reactor)
      → IsSound earlier
      → ClientReports inputs connected earlier
      → IsClientServed h (client_run h inputs (connect_all h connected earlier))
  unfolding client_run
  client_run-IsClientServed [] connected earlier s k = connect_all-IsSound h connected earlier s
  client_run-IsClientServed (inputs ∷ later) connected earlier s (known, continues) =
      let r = connect_all h connected earlier in
      subst (λ b. IsClientServed h (run_on inputs.stops (client_run h later) b))
        (sym (batch_connects inputs r))
        (run_on-IsClientServed inputs.stops inputs.connected (ClientReports later inputs.connected)
          (client_run h later) (client_batch h (before_connects inputs) r)
          (client_batch-IsClientServed h (before_connects inputs) r
            (connect_all-IsSound h connected earlier s)
            (known-KernelReports connected earlier inputs.waited s known))
          continues (λ t sound k. client_run-IsClientServed later inputs.connected t sound k))

  -- A run of a new client with its own multiplexer, of any length and with any connections coming
  -- through: as long as each report is about a connection that was in use when the batch before had
  -- handled its reports, or about a newer one in use, no report is ever about a connection that is
  -- gone, also behind the connections that came through in between, and none waits between two batches.
  pub new_client_runs :
      (inputs : List ClientInputs)
      → ClientReports inputs [] (new_reactor none)
      → IsClientServed h (client_run h inputs (new_reactor none))
  unfolding connect_all
  new_client_runs inputs reports =
      client_run-IsClientServed inputs [] (new_reactor none) new_reactor-IsSound reports
