-- ===== src/Futures/Waits.antt =====
-- include/future/Future.h, `wait`: the closure that it leaves to `poll`. A time is the number of ticks
-- since the epoch of the system's clock; what the clock says is an argument of each poll.
use fluent_net.Prelude.{
  ℕ, zero, suc, ◌+◌, ◌-◌, ◌<◌, Bool, true, false, List, [], ◌∷◌, ◌++◌, ◌≡◌, refl, inl, inr, arith,
  if◌then◌else◌, ◌==◌, leb, length, Bool-cases, length-append,
}

-- The captured `start` and `remain`; 0 is `time_point{}`.
pub record Wait : Type 0 where
  pub start : ℕ
  pub remain : ℕ

-- The two readings of the clock in one poll.
pub record Readings : Type 0 where
  pub current : ℕ
  pub again : ℕ

-- What a poll comes to: whether it is over, the times at which the functor ran, and the closure.
pub record Polled : Type 0 where
  pub over : Bool
  pub calls : List ℕ
  pub wait : Wait

-- The part behind the first `if`, with `start` set; `remain` is not 0.
unfoldable pub check : ℕ → Readings → ℕ → ℕ → Polled
check duration clock start remain =
    if leb (start + duration) clock.current
    then (if remain == 1
        then record {
          over = true;
          calls = clock.current ∷ [];
          wait = record { start = start; remain = 0 };
        }
        else record {
          over = false;
          calls = clock.current ∷ [];
          wait = record { start = clock.again; remain = remain - 1 };
        })
    else record { over = false; calls = []; wait = record { start = start; remain = remain } }

-- The closure of `wait(count, duration, f)`.
unfoldable pub wait_poll : ℕ → Readings → Wait → Polled
wait_poll duration clock w =
    if w.start == 0
    then (if w.remain == 0
        then record { over = true; calls = []; wait = w }
        else check duration clock clock.current w.remain)
    else check duration clock w.start w.remain

-- The looper polls the closure until it answers true.
abbrev pub go_on : Bool → Polled → Polled → Polled
go_on true first rest = first
go_on false first rest = record {
  over = rest.over;
  calls = first.calls ++ rest.calls;
  wait = rest.wait;
}

abbrev pub wait_on : (Wait → Polled) → Polled → Polled
wait_on later first = go_on first.over first (later first.wait)

unfoldable pub wait_run : ℕ → List Readings → Wait → Polled
wait_run duration [] w = record { over = false; calls = []; wait = w }
wait_run duration (clock ∷ later) w = wait_on (wait_run duration later) (wait_poll duration clock w)

-- The calls that are made and those that remain.
abbrev pub Counts : ℕ → Polled → Type 0
Counts n p =
    (length p.calls + p.wait.remain ≡ n)
    × (p.over ≡ true → p.wait.remain ≡ 0)
    × (p.over ≡ false → 0 < p.wait.remain)

-- `wait(count, duration, f)` before its first poll, and `wait(duration, f)`
abbrev pub wait_for : ℕ → Wait
wait_for count = record { start = 0; remain = count }

abbrev pub wait_once : Wait
wait_once = wait_for 1

-- The closure of `wait(timePoint, f)`: whether it is over, and the call of the functor.
unfoldable pub wait_until_poll : ℕ → ℕ → Bool × List ℕ
wait_until_poll time_point current =
    if leb time_point current then (true, current ∷ []) else (false, [])

one_left : (remain : ℕ) → (remain == 1) ≡ true → suc zero + 0 ≡ remain
one_left remain h = ground (arith, h)

some_left : (remain : ℕ) → (remain == 1) ≡ false → 0 < remain → suc zero + (remain - 1) ≡ remain
some_left remain h k = ground (arith, h, k)

check-Counts :
    (duration : ℕ) (clock : Readings) (start remain : ℕ)
    → 0 < remain
    → Counts remain (check duration clock start remain)
unfolding check
check-Counts duration clock start remain h =
    elim (Bool-cases (leb (start + duration) clock.current)) [
      | inl y ↦ elim (Bool-cases (remain == 1)) [
        | inl one ↦ rw (y, one) (one_left remain one, λ e. refl, λ e. absurd (ground (arith, e)))
        | inr more ↦
            rw (y, more)
              (some_left remain more h, λ e. absurd (ground (arith, e)), λ e. ground (arith, more))
      ]
      | inr n ↦ rw n (ground arith, λ e. absurd (ground (arith, e)), λ e. h)
    ]

wait_poll-Counts :
    (duration : ℕ) (clock : Readings) (w : Wait)
    → 0 < w.remain
    → Counts w.remain (wait_poll duration clock w)
unfolding wait_poll
wait_poll-Counts duration clock w h = elim (Bool-cases (w.start == 0)) [
  | inl y ↦
      let some : (w.remain == 0) ≡ false = ground (arith, h) in
      rw (y, some) (check-Counts duration clock clock.current w.remain h)
  | inr n ↦ rw n (check-Counts duration clock w.start w.remain h)
]

-- What the first poll and the others do together.
go_on-Counts :
    (n : ℕ) (first rest : Polled) (over : Bool)
    → first.over ≡ over
    → Counts n first
    → (0 < first.wait.remain → Counts first.wait.remain rest)
    → Counts n (go_on over first rest)
go_on-Counts n first rest true y h k = h
go_on-Counts n first rest false more h k =
    let both = k (h.2 more) in
    (omega (arith, length-append (first.calls) (rest.calls), h.0, both.0), both.1, both.2)

-- However the clock goes, as long as `wait` of a count that is not 0 is polled, the calls of the functor
-- that it has made and those that remain add up to the count, and it is over exactly when none remain.
pub wait_run-Counts :
    (duration : ℕ) (clocks : List Readings) (w : Wait)
    → 0 < w.remain
    → Counts w.remain (wait_run duration clocks w)
unfolding wait_run
wait_run-Counts duration [] w h = (ground arith, λ e. absurd (ground (arith, e)), λ e. h)
wait_run-Counts duration (clock ∷ later) w h =
    let first = wait_poll duration clock w in
    go_on-Counts w.remain first (wait_run duration later first.wait) first.over refl
      (wait_poll-Counts duration clock w h) (λ k. wait_run-Counts duration later first.wait k)
