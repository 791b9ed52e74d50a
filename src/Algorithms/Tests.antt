-- ===== src/Algorithms/Tests.antt =====
-- The rounding of include/utils/Algorithms.h at concrete numbers.
use fluent_net.Prelude.{ℕ, ◌*◌, ◌^◌, ◌≤◌, ◌<◌, ◌≡◌, refl, arith}
use fluent_net.Algorithms.{smear, round_to_power_of_two}
use fluent_net.Algorithms.Bits.{
  lowbit, is_power_of_two, highest_from, ceil_of_power_of_two, floor_of_power_of_two,
}
use fluent_net.Algorithms.Rounding.{round_to_power_of_two_least}

round_to_power_of_two_runs :
    (round_to_power_of_two 1 ≡ 1)
    × (round_to_power_of_two 64 ≡ 64)
    × (round_to_power_of_two 65 ≡ 128)
    × (round_to_power_of_two 0 ≡ 0)
unfolding round_to_power_of_two smear
round_to_power_of_two_runs = (refl, refl, refl, refl)

round_to_power_of_two_least_example :
    (k : ℕ) × (round_to_power_of_two 200 ≡ 2 ^ k) × (200 ≤ 2 ^ k) × (2 ^ k < 2 * 200)
round_to_power_of_two_least_example = round_to_power_of_two_least 200 (omega arith) (omega arith)

-- The greatest power of two below 6 is 2 ^ 2; `floorOfPowerOfTwo` answers 1.
positions :
    (ceil_of_power_of_two 6 ≡ 3)
    × (ceil_of_power_of_two 8 ≡ 3)
    × (floor_of_power_of_two 8 ≡ 3)
    × (floor_of_power_of_two 6 ≡ 1)
unfolding ceil_of_power_of_two floor_of_power_of_two highest_from is_power_of_two lowbit
positions = (refl, refl, refl, refl)
