-- ===== src/Context/Samples.antt =====
-- Concrete connections for the tests.
use fluent_net.Prelude.{ℕ, false, Option, none, [], ◌∷◌}
use fluent_net.Buffer.{Buffer}
use fluent_net.Events.{added, EpollOperation}
use fluent_net.Context.{World, connected}

abbrev pub empty_buffer : Buffer
empty_buffer = record { buf = 0 ∷ 0 ∷ 0 ∷ 0 ∷ []; capacity = 4; r = 0; w = 0 }

-- Three bytes are held back.
abbrev pub full_buffer : Buffer
full_buffer = record { buf = 7 ∷ 8 ∷ 9 ∷ 0 ∷ []; capacity = 4; r = 0; w = 3 }

abbrev pub idle : World
idle = record {
  context = record {
    state = connected;
    policy = record { events = 5; event_state = added };
    input = empty_buffer;
    output = empty_buffer;
    provider = [];
    current_index = 2;
    completed_index = 2;
    exception = none;
  };
  stream = [];
  shut = false;
  operations = [];
  posted = 0;
}

-- Two messages, of one byte and of two, wait in the output buffer.
abbrev pub busy : World
busy = record idle {
  context = record (idle.context) {
    policy = record { events = 7; event_state = added };
    output = full_buffer;
    provider = 1 ∷ 2 ∷ [];
    current_index = 4;
  };
}

abbrev pub accept_all : EpollOperation → Option ℕ
accept_all operation = none
