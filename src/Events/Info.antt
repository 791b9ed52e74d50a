-- ===== src/Events/Info.antt =====
-- include/policy/MultiplexerPolicy.h: `eventStateInfo` and `eventsInfo`, which print a policy for the
-- log. A `char` is its code.
use Prim.Native.Nat.{bit_or}
use fluent_net.Prelude.{ℕ, Bool, true, false, List, ◌≡◌, refl, ap, ◌∙◌, if◌then◌else◌, ◌==◌}
use fluent_net.Events.{
  new, added, deleted, MultiplexerPolicy, initial, event_none, event_read, event_write,
}
use fluent_net.Events.Masks.{Call, calls, mask_of, flags_after_all, events-calls}

-- `eventStateInfo()`: 'N', 'A' or 'D'
abbrev pub event_state_info : MultiplexerPolicy → ℕ
event_state_info p = elim p.event_state [ new ↦ 78 | added ↦ 65 | deleted ↦ 68 ]

-- The switch of `eventsInfo()` on `_events`: 'N', 'R', 'W', 'M' or '?'
unfoldable pub mask_info : ℕ → ℕ
mask_info events =
    if events == event_none
    then 78
    else if events == event_read
    then 82
    else if events == event_write
    then 87
    else if events == bit_or event_read event_write
    then 77
    else 63

abbrev pub events_info : MultiplexerPolicy → ℕ
events_info p = mask_info p.events

-- What it is to tell of the two interests.
abbrev pub flags_info : Bool × Bool → ℕ
flags_info (false, false) = 78
flags_info (true, false) = 82
flags_info (false, true) = 87
flags_info (true, true) = 77

mask_info-mask_of : (f : Bool × Bool) → mask_info (mask_of f) ≡ flags_info f
unfolding mask_info
mask_info-mask_of (false, false) = refl
mask_info-mask_of (true, false) = refl
mask_info-mask_of (false, true) = refl
mask_info-mask_of (true, true) = refl

-- `eventsInfo` tells which of the two interests are on, after any calls.
pub events_info-calls :
    (cs : List Call)
    → events_info (calls initial cs) ≡ flags_info (flags_after_all cs (false, false))
events_info-calls cs =
    ap mask_info (events-calls cs (false, false) initial refl)
    ∙ mask_info-mask_of (flags_after_all cs (false, false))
