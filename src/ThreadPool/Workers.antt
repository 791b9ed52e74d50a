-- ===== src/ThreadPool/Workers.antt =====
-- include/utils/ThreadPool.h: the threads by what they do.
use fluent_net.Prelude.{
  ℕ, zero, suc, ◌<◌, Bool, true, false, some, List, [], ◌∷◌, ◌≡◌, refl, ap, ◌∙◌, arith, set,
  get_elem?, length, ◌||◌,
}
use fluent_net.ThreadPool.{
  Worker, ready, waiting, exited, running, woken_up, wake_all, has_worker, is_waiting,
}

abbrev pub is_awake : Worker → Bool
is_awake ready = true
is_awake waiting = false
is_awake exited = false
is_awake (running t) = true

abbrev pub is_exited : Worker → Bool
is_exited exited = true
is_exited _ = false

or_false : (a b : Bool) → (a || b) ≡ false → (a ≡ false) × (b ≡ false)
or_false true b h = absurd (ground (arith, h))
or_false false b h = (refl, h)

or_true : (a b : Bool) → b ≡ true → (a || b) ≡ true
or_true true b h = refl
or_true false b h = h

pub set-has :
    (test : Worker → Bool) (vs : List Worker) (i : ℕ) (old v : Worker)
    → get_elem? vs i ≡ some old
    → test v ≡ true
    → has_worker test (set vs i v) ≡ true
set-has test [] i old v e h = absurd (ground (arith, e))
set-has test (x ∷ vs) zero old v e h = ap (λ b. b || has_worker test vs) h
set-has test (x ∷ vs) (suc i) old v e h =
    or_true (test x) (has_worker test (set vs i v)) (set-has test vs i old v e h)

pub set-lacks :
    (test : Worker → Bool) (vs : List Worker) (i : ℕ) (v : Worker)
    → has_worker test vs ≡ false
    → test v ≡ false
    → has_worker test (set vs i v) ≡ false
set-lacks test [] i v e h = refl
set-lacks test (x ∷ vs) zero v e h =
    ap (λ b. b || has_worker test vs) h ∙ (or_false (test x) (has_worker test vs) e).1
set-lacks test (x ∷ vs) (suc i) v e h =
    let (here, there) = or_false (test x) (has_worker test vs) e in
    ap (λ b. b || has_worker test (set vs i v)) here ∙ set-lacks test vs i v there h

pub notified :
    (test : Worker → Bool)
    → ((v : Worker) → test (woken_up v) ≡ test v)
    → (vs : List Worker) → has_worker test (wake_all vs) ≡ has_worker test vs
notified test same [] = refl
notified test same (v ∷ vs) =
    ap (λ b. b || has_worker test (wake_all vs)) (same v)
    ∙ ap (λ b. test v || b) (notified test same vs)

pub exited-woken_up : (v : Worker) → is_exited (woken_up v) ≡ is_exited v
exited-woken_up ready = refl
exited-woken_up waiting = refl
exited-woken_up exited = refl
exited-woken_up (running t) = refl

pub still_awake :
    (vs : List Worker) → has_worker is_awake vs ≡ true → has_worker is_awake (wake_all vs) ≡ true
still_awake [] h = h
still_awake (ready ∷ vs) h = refl
still_awake (waiting ∷ vs) h = refl
still_awake (exited ∷ vs) h = still_awake vs h
still_awake (running t ∷ vs) h = refl

pub length-wake_all : (vs : List Worker) → length (wake_all vs) ≡ length vs
length-wake_all [] = refl
length-wake_all (v ∷ vs) = ap suc (length-wake_all vs)

-- Where no thread waits and none has left, each is awake.
pub none_waits :
    (vs : List Worker)
    → 0 < length vs
    → has_worker is_waiting vs ≡ false
    → has_worker is_exited vs ≡ false
    → has_worker is_awake vs ≡ true
none_waits [] n h k = absurd (omega (arith, n))
none_waits (ready ∷ vs) n h k = refl
none_waits (waiting ∷ vs) n h k = absurd (ground (arith, h))
none_waits (exited ∷ vs) n h k = absurd (ground (arith, k))
none_waits (running t ∷ vs) n h k = refl
