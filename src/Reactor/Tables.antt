-- ===== src/Reactor/Tables.antt =====
-- The slots of a reactor as a table from addresses to connections.
use mathlib.Core.Bool.{Bool-set}
use mathlib.Core.List.{Perm, foldr}
use mathlib.Core.List.Perm
use mathlib.Core.Option.{some-injective}
use fluent_net.Prelude.{
  ℕ, zero, suc, Bool, true, false, not, ◌&&◌, ◌||◌, Option, none, some, [], ◌∷◌, ◌≡◌, refl, sym, ap,
  ◌∙◌, inl, inr, arith, set, get_elem?, length, ◌==◌, Bool-cases,
}
use fluent_net.Context.{World}
use fluent_net.Pool.{Connection, slot_is_reusable}
use fluent_net.Pool.Emplace.{IsPlaced, added, replaced}
use fluent_net.Reactor.{Slots, at_bundle}

-- A test on a slot, on the slots: there is a connection that passes.
abbrev pub slot_has : (Connection → Bool) → Option Connection → Bool
slot_has test none = false
slot_has test (some c) = test c

abbrev pub has : (Connection → Bool) → Slots → Bool
has test slots = foldr (λ slot rest. slot_has test slot || rest) false slots

-- The connection at an address, where it is not one that the pool would give up.
abbrev pub is_at : ℕ → Connection → Bool
is_at b c = c.bundle == b

abbrev pub is_open_at : ℕ → Connection → Bool
is_open_at b c = (c.bundle == b) && not (slot_is_reusable (some c))

module _ (test : Connection → Bool) where
  commute :
      (a b : Option Connection) (rest : Bool)
      → (slot_has test a || (slot_has test b || rest))
        ≡ (slot_has test b || (slot_has test a || rest))
  commute a b rest = ground arith

  has-Perm : {xs ys : Slots} → Perm xs ys → has test xs ≡ has test ys
  has-Perm p = Perm.foldr-eq Bool-set (λ slot rest. slot_has test slot || rest) commute p false

  pub has-IsPlaced :
      (c : Connection) (before after : Slots)
      → ((old : Option Connection) → slot_is_reusable old ≡ true → slot_has test old ≡ false)
      → IsPlaced c before after
      → has test before ≡ true
      → has test after ≡ true
  has-IsPlaced c before after free (added p) h = rw (has-Perm p) (ground (arith, h))
  has-IsPlaced c before after free (replaced old rest r p q) h =
      let kept : has test rest ≡ true = ground (arith, free old r, sym (has-Perm p) ∙ h) in
      rw (has-Perm q) (ground (arith, kept))

  pub has-set :
      (xs : Slots) (i : ℕ) (c c' : Connection)
      → get_elem? xs i ≡ some (some c)
      → test c' ≡ test c
      → has test (set xs i (some c')) ≡ has test xs
  has-set [] i c c' e t = refl
  has-set (x ∷ xs) zero c c' e t =
      let here : slot_has test x ≡ test c = ap (slot_has test) (some-injective x (some c) e) in
      rw here (rw t refl)
  has-set (x ∷ xs) (suc i) c c' e t = ap (λ b. slot_has test x || b) (has-set xs i c c' e t)

pub has-is_at : (b : ℕ) (xs : Slots) → has (is_open_at b) xs ≡ true → has (is_at b) xs ≡ true
has-is_at b [] h = ground arith
has-is_at b (none ∷ xs) h = has-is_at b xs h
has-is_at b (some c ∷ xs) h = elim (Bool-cases (c.bundle == b)) [
  | inl y ↦ rw y refl
  | inr n ↦ ground (arith, n, has-is_at b xs (ground (arith, n, h)))
]

-- Code on the connection at an address finds it if it is there, and every address keeps its
-- connection.
pub record IsUpdated (xs ys : Slots) : Type 0 where
  pub addresses : (b : ℕ) → has (is_at b) ys ≡ has (is_at b) xs
  pub size : length ys ≡ length xs

pub at_bundle-IsUpdated :
    (b : ℕ) (f : World → World) (xs : Slots)
    → has (is_at b) xs ≡ true
    → (ys : Slots) × (at_bundle b f xs ≡ some ys) × IsUpdated xs ys
unfolding at_bundle
at_bundle-IsUpdated b f [] h = absurd (ground arith)
at_bundle-IsUpdated b f (none ∷ xs) h =
    let (ys, e, u) = at_bundle-IsUpdated b f xs h in
    (none ∷ ys, rw e refl, record { addresses = u.addresses; size = ap suc u.size })
at_bundle-IsUpdated b f (some c ∷ xs) h = elim (Bool-cases (c.bundle == b)) [
  | inl y ↦ (
    some (record c { world = f c.world }) ∷ xs,
    rw y refl,
    record { addresses = λ a. refl; size = refl },
  )
  | inr n ↦
      let (ys, e, u) = at_bundle-IsUpdated b f xs (ground (arith, n, h)) in
      (
        some c ∷ ys,
        rw (n, e) refl,
        record { addresses = λ a. ap (λ r. is_at a c || r) (u.addresses a); size = ap suc u.size },
      )
]
