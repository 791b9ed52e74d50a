-- ===== src/Algorithms.antt =====
-- include/utils/Algorithms.h: rounding to powers of two. An `int` is its 32-bit pattern, a number
-- below 2 ^ 32; signed overflow, which C++ leaves undefined, wraps here.
pub mod BitOr
pub mod Rounding
pub mod Bits
mod Tests
use Prim.Native.Nat.{bit_or}
use fluent_net.Prelude.{ℕ, ◌+◌, ◌-◌, ◌/◌, ◌%◌, ◌^◌, if◌then◌else◌, ltb}

-- `v >> k` on `int`: the sign bit comes in from the left.
abbrev pub shift_right : ℕ → ℕ → ℕ
shift_right v k = if ltb v (2 ^ 31) then v / 2 ^ k else 2 ^ 32 - 1 - (2 ^ 32 - 1 - v) / 2 ^ k

-- `v |= v >> k`
pub smear : ℕ → ℕ → ℕ
smear k v = bit_or v (shift_right v k)

pub round_to_power_of_two : ℕ → ℕ
round_to_power_of_two v =
    (smear 16 (smear 8 (smear 4 (smear 2 (smear 1 ((v + 2 ^ 32 - 1) % 2 ^ 32))))) + 1) % 2 ^ 32
