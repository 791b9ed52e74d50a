-- ===== src/Handler/Completion.antt =====
-- include/handler/Handler.h, `handleWriteComplete`, and `Completion::poll` of
-- include/policy/SendPolicy.h: when a message counts as sent.
use fluent_net.Prelude.{
  ℕ, zero, suc, ◌+◌, ◌-◌, ◌^◌, ◌≤◌, ◌<◌, ◌≡◌, refl, List, [], ◌∷◌, arith, ltb, leb, length, take,
  sum, All,
}
use fluent_net.Context.{wrap}
use fluent_net.Handler.{complete}

abbrev pub IsPositive : ℕ → Type 0
IsPositive q = 0 < q

-- The indices grow, as long as they do not wrap.
complete_grows :
    (n : ℕ) (qs : List ℕ) (c : ℕ)
    → c + length qs < 2 ^ 64
    → (c ≤ (complete n qs c).1) × ((complete n qs c).1 + length (complete n qs c).0 ≡ c + length qs)
unfolding complete
complete_grows n [] c h = ground arith
complete_grows n (q ∷ qs) c h = ground (arith, complete_grows (n - q) qs (wrap (c + 1)))

-- What is left of the queue: the bytes that are not out, in messages that still owe some.
pub complete_owed :
    (n : ℕ) (qs : List ℕ) (c : ℕ)
    → n ≤ sum qs
    → All IsPositive qs
    → (sum (complete n qs c).0 + n ≡ sum qs)
      × All IsPositive (complete n qs c).0
      × (wrap ((complete n qs c).1 + length (complete n qs c).0) ≡ wrap (c + length qs))
unfolding complete
complete_owed n [] c h p = (omega arith, tt, refl)
complete_owed n (q ∷ qs) c h p = ground (arith, complete_owed (n - q) qs (wrap (c + 1)))

-- The i-th message in the queue (its token is `c + i`) polls as sent exactly when the `n` bytes
-- reach its end.
pub complete_exact :
    (n : ℕ) (qs : List ℕ) (c i : ℕ)
    → i < length qs
    → c + length qs < 2 ^ 64
    → All IsPositive qs
    → ltb (c + i) (complete n qs c).1 ≡ leb (sum (take (suc i) qs)) n
unfolding complete
complete_exact n [] c i h w p = absurd (omega arith)
complete_exact n (q ∷ qs) c zero h w p = ground (arith, complete_grows (n - q) qs (wrap (c + 1)))
complete_exact n (q ∷ qs) c (suc i) h w p =
    ground (arith, complete_exact (n - q) qs (wrap (c + 1)) i)
