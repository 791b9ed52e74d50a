-- ===== src/Connector/Attempts.antt =====
-- include/network/Connector.h: what an attempt to connect comes to.
use fluent_net.Prelude.{Bool, true, false, List, [], ◌∷◌, ◌≡◌, ◌⊎◌, ◌==◌}
use fluent_net.Errors.{Result, ok, throw}
use fluent_net.Socket.Calls.{error_of}
use fluent_net.Connector.{Attempt, Answers, wants_instance, wants_test}

-- The kernel says in this poll that the socket is connected.
abbrev pub SaysConnected : Answers → Type 0
SaysConnected answers = (error_of answers.connect ≡ 0) ⊎ (error_of answers.peer ≡ 0)

-- An attempt that is over: either there is no error, and the kernel had said so, or the error is one
-- that is not tried again.
abbrev pub IsOver : Type 0 → Attempt → Type 0
IsOver Said a = ((a.err ≡ 0) × Said) ⊎ ((wants_instance a.err ≡ false) × (wants_test a.err ≡ false))

-- What a poll that answers true leaves.
abbrev pub PollOk : Answers → Attempt → Result Bool × Attempt → Type 0
PollOk answers a (ok true, b) = IsOver (SaysConnected answers ⊎ (a.err ≡ 0)) b
PollOk answers a (ok false, b) = (b.err == 0) ≡ false
PollOk answers a (throw e, b) = Unit

-- The kernel says so in one of the polls.
abbrev pub SaidIn : List Answers → Type 0
SaidIn [] = ⊥
SaidIn (answers ∷ later) = SaysConnected answers ⊎ SaidIn later

abbrev pub RunOk : List Answers → Attempt → Result Bool × Attempt → Type 0
RunOk polls a (ok true, b) = IsOver (SaidIn polls ⊎ (a.err ≡ 0)) b
RunOk polls a (ok false, b) = Unit
RunOk polls a (throw e, b) = Unit
