-- ===== src/Context/Keeps.antt =====
-- What code on a connection keeps true of the world, also where it throws.
use fluent_net.Prelude.{Bool, true, false, if◌then◌else◌}
use fluent_net.Errors.{Result, ok, throw}
use fluent_net.Context.{World, M, go_on, ◌>>◌, return}

pub record Keeps (P : World → Type 0) {A : Type 0} (m : M A) : Type 0 where
  pub keep : (w : World) → P w → P (m w).1

module _ {P : World → Type 0} where
  go_on-keep :
      {A B : Type 0} (f : A → M B) (r : Result A × World)
      → ((a : A) → Keeps P (f a))
      → P r.1
      → P (go_on f r).1
  go_on-keep f (ok a, v) kf q = (kf a).keep v q
  go_on-keep f (throw e, v) kf q = q

  pub then-Keeps :
      {B : Type 0} {m : M (Unit {0})} {k : M B} → Keeps P m → Keeps P k → Keeps P (m >> k)
  then-Keeps {m = m} {k = k} km kk = record {
    keep = λ w p. go_on-keep (λ _. k) (m w) (λ _. kk) (km.keep w p);
  }

  pub if-Keeps :
      {A : Type 0} (b : Bool) {m k : M A} → Keeps P m → Keeps P k → Keeps P (if b then m else k)
  if-Keeps true km kk = km
  if-Keeps false km kk = kk

  pub return-Keeps : {A : Type 0} (a : A) → Keeps P (return a)
  return-Keeps a = record { keep = λ w p. p }

  pub when-Keeps : (b : Bool) {m : M (Unit {0})} → Keeps P m → Keeps P (if b then m else return tt)
  when-Keeps b km = if-Keeps b km (return-Keeps tt)
