-- ===== src/Handler/Refusal.antt =====
-- include/handler/Handler.h, `handleNewContext`, with include/policy/MultiplexerPolicy.h: what becomes of
-- a connection that epoll refuses.
use fluent_net.Prelude.{false, ◌≡◌, ◌⊎◌, List, []}
use fluent_net.Events.{EpollOperation}
use fluent_net.Events.Protocol.{accepts_all}
use fluent_net.Handler.{Handler}

-- The calls ask for nothing, or for something that epoll refuses for a descriptor it does not have.
abbrev pub IsUseless : List EpollOperation → Type 0
IsUseless os = (os ≡ []) ⊎ (accepts_all false os ≡ false)
