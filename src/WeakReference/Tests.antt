-- ===== src/WeakReference/Tests.antt =====
-- include/utils/WeakReference.h at concrete containers: a slot is its own answer to isReusable.
use fluent_net.Prelude.{zero, suc, ◌≡◌, refl, Bool, true, false, List, [], ◌∷◌, arith}
use mathlib.Core.List.{Perm}
use fluent_net.WeakReference.{
  Slots, fresh, do_update, update_times, update_closed, update_open, reset_window, swap,
  is_reusable_at,
}
use fluent_net.WeakReference.Window.{IsHeld}
use fluent_net.WeakReference.Sweep.{IsSwept, sweep_compacts}

abbrev itself : Bool → Bool
itself b = b

abbrev mixed : List Bool
mixed = true ∷ false ∷ true ∷ false ∷ []

-- The window is the slot 0; the slot 1 is in use.
abbrev opened : Slots Bool
opened = record { container = mixed; reusable_index = 3; left = 0; bound = 1 }

abbrev sweeping : Slots Bool
sweeping = record (fresh mixed) { reusable_index = 3 }

sweeping_run :
    update_times itself 4 sweeping
    ≡ record (fresh (false ∷ true ∷ true ∷ false ∷ [])) { reusable_index = 1 }
unfolding update_times do_update update_closed update_open reset_window swap is_reusable_at
sweeping_run = refl

opened-IsHeld : IsHeld itself opened
unfolding is_reusable_at
opened-IsHeld zero a b = refl
opened-IsHeld (suc i) a b = absurd (omega arith)

sweep_compacts_example :
    IsSwept itself (update_times itself 4 sweeping) 3
    × Perm (update_times itself 4 sweeping).container mixed
sweep_compacts_example = sweep_compacts itself mixed 3 (λ e. absurd (omega arith)) (omega arith)
