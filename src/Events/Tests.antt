-- ===== src/Events/Tests.antt =====
-- include/policy/MultiplexerPolicy.h at concrete inputs.
use fluent_net.Prelude.{true, false, ◌≡◌, refl, List, [], ◌∷◌}
use fluent_net.Events.{
  initial, ctl_add, ctl_mod, ctl_del, update_event_state, enable_read, enable_write, disable_read,
  disable_write,
}
use fluent_net.Events.Masks.{Call, reads_on, reads_off, writes_on, writes_off, updates, calls, call}
use fluent_net.Events.Protocol.{
  operations, accepts_all, registers_all, is_registered, operations_accepted,
}

-- A connection that is opened, sends, has sent all and is closed.
abbrev life : List Call
life = reads_on ∷ updates ∷ writes_on ∷ updates ∷ writes_off ∷ updates ∷ reads_off ∷ updates ∷ []

life_operations : operations initial life ≡ ctl_add ∷ ctl_mod ∷ ctl_mod ∷ ctl_del ∷ []
unfolding operations call update_event_state enable_read enable_write disable_read disable_write
life_operations = refl

operations_accepted_example :
    (accepts_all false (operations initial life) ≡ true)
    × (registers_all false (operations initial life)
        ≡ is_registered (calls initial life).event_state)
operations_accepted_example = operations_accepted life initial
