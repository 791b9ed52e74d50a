-- ===== src/Address/Swaps.antt =====
-- The orders of the bytes: `htons` and `htonl` undo themselves.
use fluent_net.Prelude.{ℕ, ◌^◌, ◌<◌, ◌≡◌, arith}
use fluent_net.Address.{htons, htonl}

pub htons-htons : (n : ℕ) → n < 2 ^ 16 → htons (htons n) ≡ n
htons-htons n h = omega arith

pub htonl-htonl : (n : ℕ) → n < 2 ^ 32 → htonl (htonl n) ≡ n
htonl-htonl n h = omega arith
