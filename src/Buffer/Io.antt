-- ===== src/Buffer/Io.antt =====
-- include/network/Buffer.h: the operations that bring bytes in or take bytes out, against the list
-- of the bytes that the buffer holds.
use fluent_net.Prelude.{
  ℕ, ◌+◌, ◌-◌, ◌*◌, ◌^◌, ◌≤◌, ◌≡◌, refl, sym, ap, ◌∙◌, List, ◌++◌, arith, length, take, drop, max,
  ltb, leb, Bool-cases, inl, inr, length-take, length-drop, take-append-drop, append_assoc,
  append-nil, [], ◌∷◌, ◌<◌,
}
use fluent_net.Algorithms.{round_to_power_of_two}
use fluent_net.Algorithms.Rounding.{round_to_power_of_two_least}
use fluent_net.Buffer.Memory.{length-overwrite, slice-overwrite}
use fluent_net.Buffer.{
  Buffer, unread, unwrite, available, gc, expand_to, has_written, make_room, gc_hint, store, append,
  got, fill, read_from,
}
use fluent_net.Buffer.Contents.{
  IsValid, contents, gc-IsValid, contents-gc, unread-gc, r-gc, capacity-gc, expand_to-IsValid,
  contents-expand_to,
}

-- The largest total that a buffer may be asked to hold: beyond it the `int` of the rounding
-- overflows.
abbrev pub limit : ℕ
limit = 2 ^ 30

-- The same bytes as in `b`, with room for `hint` more, in a storage no larger than that of `b` or
-- than twice what is needed.
pub record HasRoom (b : Buffer) (hint : ℕ) (c : Buffer) : Type 0 where
  pub valid : IsValid c
  pub same : contents c ≡ contents b
  pub count : unread c ≡ unread b
  pub room : hint ≤ unwrite c
  pub size : c.capacity ≤ max b.capacity (2 * (unread b + hint))

make_room-HasRoom :
    (b : Buffer) (hint : ℕ)
    → IsValid b
    → b.r ≡ 0
    → unread b + hint ≤ limit
    → HasRoom b hint (make_room b hint)
unfolding make_room
make_room-HasRoom b hint v z h = elim (Bool-cases (ltb (available b) hint)) [
  | inl e ↦
      let need = length b.buf + (hint - available b) in
      let total : need ≡ unread b + hint = ground (arith, v) in
      let (k, p, lo, hi) =
        round_to_power_of_two_least need (ground (arith, v)) (omega (arith, total)) in
      let grows : b.capacity ≤ round_to_power_of_two need = omega (arith, v) in
      rw (e, make_room)
        (record {
          valid = expand_to-IsValid b _ v grows;
          same = contents-expand_to b _ v grows;
          count = unfold expand_to in refl;
          room = unfold expand_to in omega (arith, v);
          size = unfold expand_to in omega (arith, v);
        })
  | inr e ↦
      rw (e, make_room)
        (record {
          valid = v;
          same = refl;
          count = refl;
          room = ground (arith, v);
          size = omega arith;
        })
]

-- `gc(hint)` keeps the bytes held, makes room for `hint` more behind them, and takes a storage that is
-- no larger than the old one or than twice what is needed.
pub gc_hint-HasRoom :
    (b : Buffer) (hint : ℕ) → IsValid b → unread b + hint ≤ limit → HasRoom b hint (gc_hint b hint)
unfolding gc_hint
gc_hint-HasRoom b hint v h = elim (Bool-cases (leb hint (unwrite b))) [
  | inl e ↦
      rw (e, gc_hint)
        (record { valid = v; same = refl; count = refl; room = ground arith; size = omega arith })
  | inr e ↦
      let u = unread-gc b in
      let c = capacity-gc b in
      let m = make_room-HasRoom (gc b) hint (gc-IsValid b v) (r-gc b) (omega arith) in
      rw (e, gc_hint)
        (record {
          valid = m.valid;
          same = m.same ∙ contents-gc b v;
          count = m.count ∙ u;
          room = m.room;
          size = omega (arith, m.size);
        })
]

pub store-IsValid :
    (b : Buffer) (bytes : List ℕ) → IsValid b → length bytes ≤ unwrite b → IsValid (store b bytes)
unfolding store has_written
store-IsValid b bytes v h = omega (arith, v, length-overwrite b.buf b.w bytes)

contents-store :
    (b : Buffer) (bytes : List ℕ)
    → IsValid b
    → length bytes ≤ unwrite b
    → contents (store b bytes) ≡ contents b ++ bytes
unfolding store has_written
contents-store b bytes v h =
    slice-overwrite b.buf bytes b.r (unread b) b.w (b.w + length bytes - b.r) (omega (arith, v))
      (omega (arith, v)) (omega (arith, v))

pub append-IsValid :
    (b : Buffer) (bytes : List ℕ)
    → IsValid b
    → unread b + length bytes ≤ limit
    → IsValid (append b bytes)
unfolding append
append-IsValid b bytes v h =
    let g = gc_hint-HasRoom b (length bytes) v h in store-IsValid _ bytes g.valid g.room

-- `append` adds its bytes behind those that are held, whether it writes in place, compacts or grows.
pub contents-append :
    (b : Buffer) (bytes : List ℕ)
    → IsValid b
    → unread b + length bytes ≤ limit
    → contents (append b bytes) ≡ contents b ++ bytes
unfolding append
contents-append b bytes v h =
    let g = gc_hint-HasRoom b (length bytes) v h in
    contents-store _ bytes g.valid g.room ∙ ap (λ xs. xs ++ bytes) g.same

-- Every byte that `append` adds is counted in the capacity bound of `gc(hint)`.
pub capacity-append :
    (b : Buffer) (bytes : List ℕ)
    → IsValid b
    → unread b + length bytes ≤ limit
    → (append b bytes).capacity ≤ max b.capacity (2 * (unread b + length bytes))
unfolding append store has_written
capacity-append b bytes v h = (gc_hint-HasRoom b (length bytes) v h).size

unread-store :
    (b : Buffer) (bytes : List ℕ) → IsValid b → unread (store b bytes) ≡ unread b + length bytes
unfolding store has_written
unread-store b bytes v = omega (arith, v)

-- The two targets of `readv` together take the bytes in the order of the stream.
record Holds (c : Buffer) (bytes : List ℕ) : Type 0 where
  valid : IsValid c
  bytes_held : contents c ≡ bytes

fill-Holds :
    (b : Buffer) (bytes : List ℕ)
    → IsValid b
    → unread b + length bytes ≤ limit
    → Holds (fill b bytes) (contents b ++ bytes)
unfolding fill
fill-Holds b bytes v h = elim (Bool-cases (leb (length bytes) (unwrite b))) [
  | inl e ↦
      rw (e, fill)
        (record {
          valid = store-IsValid b bytes v (ground arith);
          bytes_held = contents-store b bytes v (ground arith);
        })
  | inr e ↦
      let head = take (unwrite b) bytes in
      let tail = drop (unwrite b) bytes in
      let lh = length-take (unwrite b) bytes in
      let lt = length-drop (unwrite b) bytes in
      let gt : unwrite b < length bytes = ground arith in
      let v' = store-IsValid b head v (omega arith) in
      let total : unread (store b head) + length tail ≤ limit =
        omega (arith, unread-store b head v) in
      rw (e, fill)
        (record {
          valid = append-IsValid (store b head) tail v' total;
          bytes_held =
              contents-append (store b head) tail v' total
              ∙ ap (λ xs. xs ++ tail) (contents-store b head v (omega arith))
              ∙ append_assoc (contents b) head tail
              ∙ ap (◌++◌ (contents b)) (take-append-drop (unwrite b) bytes);
        })
]

pub read_from-IsValid :
    (b : Buffer) (bytes : List ℕ)
    → IsValid b
    → unread b + length bytes ≤ limit
    → IsValid (read_from b (got bytes))
unfolding read_from
read_from-IsValid b bytes v h = ground (arith, (fill-Holds b bytes v h).valid)

-- What `readv` got is appended whole, also the part that landed in the local buffer.
pub contents-read_from :
    (b : Buffer) (bytes : List ℕ)
    → IsValid b
    → unread b + length bytes ≤ limit
    → contents (read_from b (got bytes)) ≡ contents b ++ bytes
unfolding read_from
contents-read_from b [] v h = sym (append-nil (contents b))
contents-read_from b (x ∷ bytes) v h = ground (arith, (fill-Holds b (x ∷ bytes) v h).bytes_held)
