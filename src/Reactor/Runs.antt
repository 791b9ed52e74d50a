-- ===== src/Reactor/Runs.antt =====
-- include/app/Server.h: whole runs of a server that has its own multiplexer.
use fluent_net.Prelude.{Bool, true, false, none, some, List, [], ◌∷◌, refl}
use fluent_net.Errors.{ok, throw}
use fluent_net.Handler.{Handler}
use fluent_net.Multiplexer.{visit, token}
use fluent_net.Acceptor.{Acceptor}
use fluent_net.Pool
use fluent_net.Pool.Reachable.{created, Reachable-IsBounded}
use fluent_net.Reactor.Servers.{
  Server, Inputs, Batch, Leaves, batch, run_on, run, reactor_on, new_reactor, new_server,
}
use fluent_net.Reactor.Safety.{IsSound}
use fluent_net.Reactor.Batches.{KernelReports, IsServed, batch-IsServed}

-- What holds after a batch, if another one follows.
abbrev pub Continues : {S : Type 0} → Bool → (S → Type 0) → Batch S → Type 0
Continues stops P none = Unit
Continues stops P (some (throw e, s)) = Unit
Continues true P (some (ok u, s)) = Unit
Continues false P (some (ok u, s)) = P s

pub run_on-Leaves :
    {S : Type 0} (Q : S → Type 0) (stops : Bool) (P : S → Type 0) (later : S → Batch S)
    (b : Batch S)
    → Leaves Q b
    → Continues stops P b
    → ((s : S) → Q s → P s → Leaves Q (later s))
    → Leaves Q (run_on stops later b)
run_on-Leaves Q stops P later none left c go = elim left [ ]
run_on-Leaves Q stops P later (some (throw e, s)) left c go = left
run_on-Leaves Q true P later (some (ok u, s)) left c go = left
run_on-Leaves Q false P later (some (ok u, s)) left c go = go s left c

pub new_reactor-IsSound : IsSound (new_reactor none)
unfolding reactor_on token visit
new_reactor-IsSound = record {
  bounded = Reachable-IsBounded Pool.new created;
  handled_all = refl;
  own = refl;
}

module _ (h : Handler) where
  -- In every batch of a run the kernel reports what it may then.
  abbrev pub RunReports : List Inputs → Server → Type 0
  RunReports [] s = Unit
  RunReports (inputs ∷ later) s =
      KernelReports h s.reactor inputs.waited
      × Continues inputs.stops (RunReports later) (batch h inputs s)

  run-IsServed :
      (inputs : List Inputs) (s : Server)
      → IsSound s.reactor
      → RunReports inputs s
      → IsServed h (run h inputs s)
  unfolding run
  run-IsServed [] s sound reports = sound
  run-IsServed (inputs ∷ later) s sound (reported, continues) =
      run_on-Leaves (λ s. IsSound s.reactor) inputs.stops (RunReports later) (run h later)
        (batch h inputs s) (batch-IsServed h inputs s sound reported) continues
        (λ t kept reports. run-IsServed later t kept reports)

  -- A run of a new server with its own multiplexer, of any length: as long as the kernel reports
  -- connections that are in the pool and in use, no report is ever about a connection that is gone,
  -- and none waits between two batches.
  pub new_server_runs :
      (inputs : List Inputs) (acceptor : Acceptor)
      → RunReports inputs (new_server none acceptor)
      → IsServed h (run h inputs (new_server none acceptor))
  new_server_runs inputs acceptor reports =
      run-IsServed inputs (new_server none acceptor) new_reactor-IsSound reports
