-- ===== src/ThreadPool/Fairness.antt =====
-- include/utils/ThreadPool.h: the tasks are started in order, and no wake-up is lost.
use fluent_net.Prelude.{
  ◌-◌, ℕ, zero, suc, ◌<◌, true, false, Option, none, some, List, [], ◌∷◌, ◌++◌, ◌≡◌, refl, sym, ap,
  ◌∙◌, ◌⊎◌, inl, inr, arith, get_elem?, length, length-set, replicate, Bool-cases, subst,
  if◌then◌else◌, append_assoc,
}
use fluent_net.ThreadPool.{
  Worker, ready, waiting, exited, running, ThreadPool, put_worker, wake_if, wake, notify_one,
  execute, notify_all, destroy, look, turn_of, turn, has_worker, is_waiting, Notifies, Reach,
  created, executed, notified_one, destroyed, notified_all, turned, woke,
}
use fluent_net.ThreadPool.Workers.{
  is_awake, is_exited, set-has, set-lacks, notified, exited-woken_up, still_awake, length-wake_all,
  none_waits,
}

-- What the pool keeps: the tasks started and those that wait are those submitted, in order; where one
-- waits, a thread is awake or a notification is yet to come; and where a thread has left, the pool is stopped and no task waits.
pub record IsFair (size : ℕ) (ts : List ℕ) (p : ThreadPool) : Type 0 where
  pub order : p.started ++ p.tasks ≡ ts
  pub awake : (p.tasks ≡ []) ⊎ (has_worker is_awake p.workers ≡ true) ⊎ (0 < p.notifying)
  pub left : (has_worker is_exited p.workers ≡ false) ⊎ ((p.stop ≡ true) × (p.tasks ≡ []))
  pub threads : length p.workers ≡ size

-- A thread that is awake is put in the place of one.
put_awake :
    (size : ℕ) (ts : List ℕ) (i : ℕ) (old v : Worker) (p : ThreadPool)
    → get_elem? p.workers i ≡ some old
    → is_awake v ≡ true
    → is_exited v ≡ false
    → IsFair size ts p
    → IsFair size ts (put_worker i v p)
put_awake size ts i old v p e awake stays f = record {
  order = f.order;
  awake = inr (inl (set-has is_awake p.workers i old v e awake));
  left = elim f.left [
    | inl stay ↦ inl (set-lacks is_exited p.workers i v stay stays)
    | inr gone ↦ inr gone
  ];
  threads = length-set p.workers i v ∙ f.threads;
}

wake_if-IsFair :
    (size : ℕ) (ts : List ℕ) (i : ℕ) (p : ThreadPool) (found : Option Worker)
    → get_elem? p.workers i ≡ found
    → IsFair size ts p
    → IsFair size ts (wake_if found i p)
wake_if-IsFair size ts i p none e f = f
wake_if-IsFair size ts i p (some ready) e f = f
wake_if-IsFair size ts i p (some waiting) e f = put_awake size ts i waiting ready p e refl refl f
wake_if-IsFair size ts i p (some exited) e f = f
wake_if-IsFair size ts i p (some (running t)) e f = f

-- A thread that has found no task waits or leaves.
rest_worker :
    (size : ℕ) (ts : List ℕ) (i : ℕ) (v : Worker) (p : ThreadPool)
    → p.tasks ≡ []
    → (is_exited v ≡ false) ⊎ (p.stop ≡ true)
    → IsFair size ts p
    → IsFair size ts (put_worker i v p)
rest_worker size ts i v p e h f = record {
  order = f.order;
  awake = inl e;
  left = elim h [
    | inl stays ↦ elim f.left [
      | inl stay ↦ inl (set-lacks is_exited p.workers i v stay stays)
      | inr gone ↦ inr gone
    ]
    | inr stop ↦ inr (stop, e)
  ];
  threads = length-set p.workers i v ∙ f.threads;
}

look-IsFair :
    (size : ℕ) (ts : List ℕ) (i : ℕ) (p : ThreadPool) (tasks : List ℕ)
    → p.tasks ≡ tasks
    → get_elem? p.workers i ≡ some ready
    → IsFair size ts p
    → IsFair size ts (look tasks i p)
look-IsFair size ts i p (t ∷ tasks) e found f = record {
  order = append_assoc p.started (t ∷ []) tasks ∙ (ap (λ xs. p.started ++ xs) (sym e) ∙ f.order);
  awake = inr (inl (set-has is_awake p.workers i ready (running t) found refl));
  left = elim f.left [
    | inl stay ↦ inl (set-lacks is_exited p.workers i (running t) stay refl)
    | inr (stop, empty) ↦ absurd (ground (arith, e, empty))
  ];
  threads = length-set p.workers i (running t) ∙ f.threads;
}
look-IsFair size ts i p [] e found f =
    rest_worker size ts i (if p.stop then exited else waiting) p e
      (elim (Bool-cases p.stop) [ inl stop ↦ inr stop | inr more ↦ inl (rw more refl) ]) f

turn_of-IsFair :
    (size : ℕ) (ts : List ℕ) (i : ℕ) (p : ThreadPool) (found : Option Worker)
    → get_elem? p.workers i ≡ found
    → IsFair size ts p
    → IsFair size ts (turn_of found i p)
turn_of-IsFair size ts i p none e f = f
turn_of-IsFair size ts i p (some ready) e f = look-IsFair size ts i p p.tasks refl e f
turn_of-IsFair size ts i p (some waiting) e f = f
turn_of-IsFair size ts i p (some exited) e f = f
turn_of-IsFair size ts i p (some (running t)) e f =
    put_awake size ts i (running t) ready p e refl refl f

none_exited :
    (size : ℕ) (ts : List ℕ) (p : ThreadPool)
    → p.stop ≡ false
    → IsFair size ts p
    → has_worker is_exited p.workers ≡ false
none_exited size ts p h f = elim f.left [
  | inl stay ↦ stay
  | inr (stop, empty) ↦ absurd (ground (arith, h, stop))
]

execute-IsFair :
    (size : ℕ) (ts : List ℕ) (t : ℕ) (p : ThreadPool)
    → p.stop ≡ false
    → IsFair size ts p
    → IsFair size (ts ++ t ∷ []) (execute t p)
unfolding execute
execute-IsFair size ts t p h f = record {
  order = sym (append_assoc p.started p.tasks (t ∷ [])) ∙ ap (λ xs. xs ++ t ∷ []) f.order;
  awake = inr (inr (omega arith));
  left = inl (none_exited size ts p h f);
  threads = f.threads;
}

-- Where no thread waits, one is awake or all tasks were started.
notify_none :
    (size : ℕ) (ts : List ℕ) (p : ThreadPool)
    → 0 < size
    → has_worker is_waiting p.workers ≡ false
    → IsFair size ts p
    → (p.tasks ≡ []) ⊎ (has_worker is_awake p.workers ≡ true)
notify_none size ts p n k f = elim f.left [
  | inl stay ↦ inr (none_waits p.workers (subst (λ m. 0 < m) (sym f.threads) n) k stay)
  | inr (stop, empty) ↦ inl empty
]

notify_one-IsFair :
    (size : ℕ) (ts : List ℕ) (woken : Option ℕ) (p : ThreadPool)
    → 0 < size
    → Notifies woken p
    → IsFair size ts p
    → IsFair size ts (notify_one woken p)
unfolding notify_one wake
notify_one-IsFair size ts none p n k f = record {
  order = f.order;
  awake = elim (notify_none size ts p n k f) [ inl empty ↦ inl empty | inr one ↦ inr (inl one) ];
  left = f.left;
  threads = f.threads;
}
notify_one-IsFair size ts (some i) p n k f =
    let q : ThreadPool = record p { notifying = p.notifying - 1 } in
    subst (λ found. IsFair size ts (wake_if found i q)) (sym k)
      (record {
        order = f.order;
        awake = inr (inl (set-has is_awake p.workers i waiting ready k refl));
        left = elim f.left [
          | inl stay ↦ inl (set-lacks is_exited p.workers i ready stay refl)
          | inr gone ↦ inr gone
        ];
        threads = length-set p.workers i ready ∙ f.threads;
      })

destroy-IsFair :
    (size : ℕ) (ts : List ℕ) (p : ThreadPool) → IsFair size ts p → IsFair size ts (destroy p)
destroy-IsFair size ts p f = record {
  order = f.order;
  awake = f.awake;
  left = elim f.left [ inl stay ↦ inl stay | inr (stop, empty) ↦ inr (refl, empty) ];
  threads = f.threads;
}

notify_all-IsFair :
    (size : ℕ) (ts : List ℕ) (p : ThreadPool) → IsFair size ts p → IsFair size ts (notify_all p)
notify_all-IsFair size ts p f = record {
  order = f.order;
  awake = elim f.awake [
    | inl empty ↦ inl empty
    | inr (inl one) ↦ inr (inl (still_awake p.workers one))
    | inr (inr later) ↦ inr (inr later)
  ];
  left = elim f.left [
    | inl stay ↦ inl (notified is_exited exited-woken_up p.workers ∙ stay)
    | inr gone ↦ inr gone
  ];
  threads = length-wake_all p.workers ∙ f.threads;
}

ready-exited : (size : ℕ) → has_worker is_exited (replicate size ready) ≡ false
ready-exited zero = refl
ready-exited (suc size) = ready-exited size

length-ready : (size : ℕ) → length (replicate size ready) ≡ size
length-ready zero = refl
length-ready (suc size) = ap suc (length-ready size)

-- In a pool of at least one thread, however its threads and its users take turns, the tasks are
-- started in the order in which they were submitted, each once; where one waits to be started, a
-- thread is awake or a call of execute is yet to notify one; and a thread leaves only a pool that is
-- stopped and has started all tasks.
pub Reach-IsFair :
    (size : ℕ) (ts : List ℕ) (p : ThreadPool) → 0 < size → Reach size ts p → IsFair size ts p
unfolding turn wake
Reach-IsFair size _ _ n created = record {
  order = refl;
  awake = inl refl;
  left = inl (ready-exited size);
  threads = length-ready size;
}
Reach-IsFair size _ _ n (executed {ts = ts} {p = p} t r h) =
    execute-IsFair size ts t p h (Reach-IsFair size ts p n r)
Reach-IsFair size _ _ n (notified_one {ts = ts} {p = p} woken r h k) =
    notify_one-IsFair size ts woken p n k (Reach-IsFair size ts p n r)
Reach-IsFair size _ _ n (destroyed {ts = ts} {p = p} r) =
    destroy-IsFair size ts p (Reach-IsFair size ts p n r)
Reach-IsFair size _ _ n (notified_all {ts = ts} {p = p} r h) =
    notify_all-IsFair size ts p (Reach-IsFair size ts p n r)
Reach-IsFair size _ _ n (turned {ts = ts} {p = p} i r) =
    turn_of-IsFair size ts i p (get_elem? p.workers i) refl (Reach-IsFair size ts p n r)
Reach-IsFair size _ _ n (woke {ts = ts} {p = p} i r) =
    wake_if-IsFair size ts i p (get_elem? p.workers i) refl (Reach-IsFair size ts p n r)
