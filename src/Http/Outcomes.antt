-- ===== src/Http/Outcomes.antt =====
-- What holds of the value of an `Outcome`: `B` says what is known where a literal is left, and the
-- rounds are never used up.
use fluent_net.Prelude.{Bool, true, false, inl, inr, ◌≡◌, if◌then◌else◌, Bool-cases}
use fluent_net.Http.{Outcome, done, raised, out_of_bounds, out_of_rounds, ◌>>=◌}

module _ (B : Type 0) where
  abbrev pub Holds : {A : Type 0} → (A → Type 0) → Outcome A → Type 0
  Holds P (done a) = P a
  Holds P (raised e) = Unit
  Holds P out_of_bounds = B
  Holds P out_of_rounds = ⊥

  pub Holds-bind :
      {A C : Type 0} (P : A → Type 0) (Q : C → Type 0) (o : Outcome A) (f : A → Outcome C)
      → Holds P o
      → ((a : A) → P a → Holds Q (f a))
      → Holds Q (o >>= f)
  Holds-bind P Q (done a) f h g = g a h
  Holds-bind P Q (raised e) f h g = tt
  Holds-bind P Q out_of_bounds f h g = h
  Holds-bind P Q out_of_rounds f h g = h

  pub Holds-if :
      {A : Type 0} (P : A → Type 0) (b : Bool) (o o' : Outcome A)
      → (b ≡ true → Holds P o)
      → (b ≡ false → Holds P o')
      → Holds P (if b then o else o')
  Holds-if P b o o' h g = elim (Bool-cases b) [ inl t ↦ rw t (h t) | inr f ↦ rw f (g f) ]
