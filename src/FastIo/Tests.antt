-- ===== src/FastIo/Tests.antt =====
-- include/utils/FastIo.h at concrete lines.
use fluent_net.Prelude.{ℕ, some, List, [], ◌∷◌, ◌≡◌, refl, arith}
use fluent_net.FastIo.{new, getline, search, scan, strlen2}
use fluent_net.FastIo.Lines.{IsTidy, HasRead, getline-HasRead}

abbrev first_line : List ℕ
first_line = 97 ∷ 98 ∷ 99 ∷ []

abbrev second_line : List ℕ
second_line = 100 ∷ 101 ∷ []

second_starts :
    (getline 4 (some second_line) (getline 4 (some first_line) new).1).0
    ≡ some (record { start = 3; len = 2 })
unfolding getline search scan strlen2
second_starts = refl

-- A line of ten bytes in a buffer of sixteen.
abbrev long_line : List ℕ
long_line = 97 ∷ 97 ∷ 97 ∷ 97 ∷ 97 ∷ 97 ∷ 97 ∷ 97 ∷ 97 ∷ 97 ∷ []

long_result : (getline 4 (some long_line) new).0 ≡ some (record { start = 0; len = 15 })
unfolding getline search scan strlen2
long_result = refl

new-IsTidy : IsTidy 4 new
new-IsTidy = record { fails = λ i h. absurd (omega (arith, h)); holds = λ i h l. refl }

getline-HasRead_example : HasRead 4 first_line 0 (getline 4 (some first_line) new)
getline-HasRead_example =
    getline-HasRead 4 first_line new (refl, (refl, (refl, tt))) (omega arith) new-IsTidy
