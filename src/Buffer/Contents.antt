-- ===== src/Buffer/Contents.antt =====
-- include/network/Buffer.h: the well-formedness of a buffer, the bytes that it holds, and what the
-- operations that move no byte to or from the outside do to them.
use fluent_net.Prelude.{
  ℕ, zero, suc, ◌+◌, ◌-◌, ◌≤◌, ◌≡◌, refl, sym, ap, ◌∙◌, List, [], arith, length, take, drop,
  length-take, length-drop, drop-take, drop-drop, ltb, Bool-cases, inl, inr,
}
use fluent_net.Buffer.Memory.{length-overwrite, length-resize, slice-overwrite, slice-resize}
use fluent_net.Buffer.{
  Buffer, unread, unwrite, available, clear, gc, reuse_if_possible, expand_to, has_read,
}

pub record IsValid (b : Buffer) : Type 0 where
  pub order : b.r ≤ b.w
  pub within : b.w ≤ b.capacity
  pub sized : length b.buf ≡ b.capacity

-- The unread bytes, oldest first.
abbrev pub contents : Buffer → List ℕ
contents b = take (unread b) (drop b.r b.buf)

pub length-contents : (b : Buffer) → IsValid b → length (contents b) ≡ unread b
length-contents b v =
    omega (arith, length-take (unread b) (drop b.r b.buf), length-drop b.r b.buf, v)

pub gc-IsValid : (b : Buffer) → IsValid b → IsValid (gc b)
unfolding gc
gc-IsValid b v = ground (arith, length-overwrite b.buf 0 (contents b))

-- `gc()` moves bytes and loses none.
pub contents-gc : (b : Buffer) → IsValid b → contents (gc b) ≡ contents b
unfolding gc
contents-gc b v = elim (Bool-cases (ltb 0 b.r)) [
  | inl e ↦
      rw (e, gc)
        (slice-overwrite b.buf (contents b) 0 0 0 (unread b - 0) refl
          (omega (arith, length-contents b v)) (omega (arith, length-contents b v, v)))
  | inr e ↦ rw (e, gc)
]

pub unread-gc : (b : Buffer) → unread (gc b) ≡ unread b
unfolding gc
unread-gc b = ground arith

pub capacity-gc : (b : Buffer) → (gc b).capacity ≡ b.capacity
unfolding gc
capacity-gc b = ground arith

pub r-gc : (b : Buffer) → (gc b).r ≡ 0
unfolding gc
r-gc b = ground arith

-- `gc()` leaves the free space in one piece behind `w`.
pub unwrite-gc : (b : Buffer) → IsValid b → unwrite (gc b) ≡ available b
unfolding gc
unwrite-gc b v = ground arith

pub reuse_if_possible-IsValid : (b : Buffer) → IsValid b → IsValid (reuse_if_possible b)
unfolding reuse_if_possible clear
reuse_if_possible-IsValid b v = ground (arith, gc-IsValid b v)

take_none : (n : ℕ) (xs : List ℕ) → n ≡ 0 → take n xs ≡ []
take_none zero xs e = refl
take_none (suc n) xs e = absurd (omega arith)

pub contents-reuse_if_possible :
    (b : Buffer) → IsValid b → contents (reuse_if_possible b) ≡ contents b
unfolding reuse_if_possible clear
contents-reuse_if_possible b v =
    ground (arith, contents-gc b v, take_none (unread b) (drop b.r b.buf), take_none (0 - 0) b.buf)

pub has_read-IsValid : (b : Buffer) (n : ℕ) → IsValid b → n ≤ unread b → IsValid (has_read b n)
unfolding has_read
has_read-IsValid b n v h = reuse_if_possible-IsValid _ (omega (arith, v))

-- `hasRead(n)` forgets the `n` oldest bytes, whether or not it compacts.
pub contents-has_read :
    (b : Buffer) (n : ℕ) → IsValid b → n ≤ unread b → contents (has_read b n) ≡ drop n (contents b)
unfolding has_read
contents-has_read b n v h =
    let e : b.w - (b.r + n) ≡ b.w - b.r - n = omega arith in
    contents-reuse_if_possible _ (omega (arith, v))
    ∙ rw (e, drop-take) (ap (take (b.w - b.r - n)) (sym (drop-drop n b.r (b.r + n) b.buf refl)))

pub expand_to-IsValid : (b : Buffer) (n : ℕ) → IsValid b → b.capacity ≤ n → IsValid (expand_to b n)
unfolding expand_to
expand_to-IsValid b n v h = omega (arith, v, length-resize n b.buf)

pub contents-expand_to :
    (b : Buffer) (n : ℕ) → IsValid b → b.capacity ≤ n → contents (expand_to b n) ≡ contents b
unfolding expand_to
contents-expand_to b n v h =
    slice-resize b.buf b.r (unread b) n (omega (arith, v)) (omega (arith, v))
