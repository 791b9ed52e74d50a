-- ===== src/Buffer/Tests.antt =====
-- include/network/Buffer.h at concrete inputs.
use fluent_net.Prelude.{◌≡◌, ◌≤◌, ◌+◌, ◌*◌, max, List, [], ◌∷◌, arith}
use fluent_net.Buffer.{Buffer, append, got, sent, write_failed, gc_hint}
use fluent_net.Buffer.Contents.{IsValid, contents}
use fluent_net.Buffer.Io.{HasRoom, gc_hint-HasRoom, contents-append, capacity-append}
use fluent_net.Buffer.Queue.{
  Call, appends, receives, consumes, flushes, run, queue_run, contents_of, run_refines,
}

-- Eight bytes of storage, of which the third and the fourth are held.
abbrev half_read : Buffer
half_read = record { buf = 1 ∷ 2 ∷ 3 ∷ 4 ∷ 0 ∷ 0 ∷ 0 ∷ 0 ∷ []; capacity = 8; r = 2; w = 4 }

half_read-IsValid : IsValid half_read
half_read-IsValid = omega arith

abbrev script : List Call
script =
    appends (5 ∷ 6 ∷ 7 ∷ 8 ∷ 9 ∷ [])
    ∷ flushes (write_failed 11)
    ∷ flushes (sent 3)
    ∷ receives (got (10 ∷ 11 ∷ []))
    ∷ consumes 1
    ∷ []

gc_hint-HasRoom_example : HasRoom half_read 7 (gc_hint half_read 7)
gc_hint-HasRoom_example = gc_hint-HasRoom half_read 7 half_read-IsValid (omega arith)

contents-append_example :
    contents (append half_read (5 ∷ 6 ∷ 7 ∷ 8 ∷ 9 ∷ [])) ≡ 3 ∷ 4 ∷ 5 ∷ 6 ∷ 7 ∷ 8 ∷ 9 ∷ []
contents-append_example =
    contents-append half_read (5 ∷ 6 ∷ 7 ∷ 8 ∷ 9 ∷ []) half_read-IsValid (omega arith)

capacity-append_example : (append half_read (5 ∷ 6 ∷ 7 ∷ [])).capacity ≤ max 8 (2 * (2 + 3))
capacity-append_example = capacity-append half_read (5 ∷ 6 ∷ 7 ∷ []) half_read-IsValid (omega arith)

run_refines_example : contents_of (run half_read script) ≡ queue_run (3 ∷ 4 ∷ []) script
run_refines_example = run_refines script half_read half_read-IsValid (omega arith)
