-- ===== src/Handler/Tests.antt =====
-- include/handler/Handler.h at concrete inputs.
use fluent_net.Prelude.{◌+◌, true, false, ◌≡◌, refl, none, some, List, [], ◌∷◌, arith, ltb, leb}
use fluent_net.Buffer.{got, sent}
use fluent_net.Events.{initial, ctl_add}
use fluent_net.Context.{World, connecting, send, shutdown}
use fluent_net.Context.Stream.{pipeline}
use fluent_net.Context.Samples.{idle, busy, accept_all}
use fluent_net.Handler.{Handler, Answers, complete, handle_write}
use fluent_net.Handler.Completion.{complete_exact}
use fluent_net.Handler.Accounting.Sending.{IsAccounted}
use fluent_net.Handler.Accounting.Telling.{IsKept, send-IsKept}
use fluent_net.Handler.Accounting.Writing.{handle_write-IsAccounted, pipeline-handle_write}
use fluent_net.Handler.Deferred.{Step, polls, reports, run, deferred_shutdown_lost}
use fluent_net.Events.Masks.{Call, writes_on, updates}
use fluent_net.Events.Protocol.{operations}

abbrev silent : Handler
silent = record { connect_callback = none; message_callback = none; close_callback = none }

abbrev two_taken : Answers
two_taken = record { readv = got []; write = sent 2; ctl = accept_all }

idle-IsAccounted : IsAccounted (idle.context)
idle-IsAccounted = record {
  valid = omega arith;
  owed = refl;
  positive = tt;
  tokens = refl;
  masked = (true, false, refl);
  wanted = λ _ h. absurd (omega arith);
}

busy-IsAccounted : IsAccounted (busy.context)
busy-IsAccounted = record {
  valid = omega arith;
  owed = refl;
  positive = (omega arith, (omega arith, tt));
  tokens = refl;
  masked = (true, true, refl);
  wanted = λ _ _. refl;
}

complete_exact_example : ltb (2 + 1) (complete 2 (1 ∷ 2 ∷ []) 2).1 ≡ leb (1 + (2 + 0)) 2
complete_exact_example =
    complete_exact 2 (1 ∷ 2 ∷ []) 2 1 (omega arith) (omega arith) (omega arith, (omega arith, tt))

-- Epoll has the read interest of the connection, and the kernel takes one byte of two.
abbrev reading : World
reading = record idle { operations = (ctl_add, 5) ∷ [] }

send-IsKept_example : IsKept accept_all (send (1 ∷ 2 ∷ []) (sent 1) accept_all reading)
send-IsKept_example =
    send-IsKept accept_all (1 ∷ 2 ∷ []) (sent 1) reading idle-IsAccounted refl (omega arith)
      (omega arith)

handle_write-IsAccounted_example : IsAccounted (handle_write two_taken busy).1.context
handle_write-IsAccounted_example =
    handle_write-IsAccounted two_taken busy busy-IsAccounted (omega arith)

pipeline-handle_write_example : pipeline (handle_write two_taken busy).1 ≡ 7 ∷ 8 ∷ 9 ∷ []
pipeline-handle_write_example = pipeline-handle_write two_taken busy busy-IsAccounted (omega arith)

-- All that waits is written, and then the looper polls the shutdown.
abbrev flushed_then_polled : List Step
flushed_then_polled = reports 4 (record two_taken { write = sent 3 }) ∷ polls ∷ []

deferred_shutdown_lost_example : (run silent (shutdown busy).1 flushed_then_polled).shut ≡ false
deferred_shutdown_lost_example =
    deferred_shutdown_lost silent flushed_then_polled busy (record { message = tt; close = tt })
      refl refl

abbrev fresh : World
fresh = record idle { context = record (idle.context) { state = connecting; policy = initial } }

abbrev refused : Answers
refused = record two_taken { ctl = λ operation. some 12 }

-- It is given a message to send that the kernel does not take.
abbrev sends_later : List Call
sends_later = writes_on ∷ updates ∷ []

-- The application shuts down at once.
abbrev impatient : Handler
impatient = record {
  connect_callback = none;
  message_callback = some shutdown;
  close_callback = none;
}
