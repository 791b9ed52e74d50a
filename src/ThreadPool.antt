-- ===== src/ThreadPool.antt =====
-- include/utils/ThreadPool.h: the tasks of a pool of threads and the loop of each thread. What a thread
-- does while it holds the mutex is one step; `execute` and the destructor notify behind that, in a step
-- of their own.
pub mod Workers
pub mod Fairness
mod Tests
use fluent_net.Prelude.{
  ℕ, suc, ◌-◌, ◌<◌, Bool, true, false, Option, none, some, List, [], ◌∷◌, ◌++◌, ◌≡◌, set, get_elem?,
  replicate, if◌then◌else◌, ◌||◌,
}

-- A thread is about to look for a task with the mutex locked, waits on the condition, runs a task, or
-- has left its loop.
pub data Worker : Type 0 where
  ready waiting exited : Worker
  running : ℕ → Worker

-- `Data` and the threads; with the tasks that were started, in order, and how many calls of `execute`
-- have put their task in the queue and not notified yet. A task is its number.
pub record ThreadPool : Type 0 where
  pub tasks : List ℕ
  pub stop : Bool
  pub workers : List Worker
  pub started : List ℕ
  pub notifying : ℕ

-- `ThreadPool(size)`
abbrev pub create : ℕ → ThreadPool
create size = record {
  tasks = [];
  stop = false;
  workers = replicate size ready;
  started = [];
  notifying = 0;
}

abbrev pub put_worker : ℕ → Worker → ThreadPool → ThreadPool
put_worker i v p = record p { workers = set p.workers i v }

abbrev pub wake_if : Option Worker → ℕ → ThreadPool → ThreadPool
wake_if none i p = p
wake_if (some ready) i p = p
wake_if (some waiting) i p = put_worker i ready p
wake_if (some exited) i p = p
wake_if (some (running t)) i p = p

-- A thread that waits on the condition wakes up, by itself or because it is notified.
unfoldable pub wake : ℕ → ThreadPool → ThreadPool
wake i p = wake_if (get_elem? p.workers i) i p

-- `execute(functor, args...)`, up to where the mutex is unlocked
unfoldable pub execute : ℕ → ThreadPool → ThreadPool
execute t p = record p { tasks = p.tasks ++ t ∷ []; notifying = suc p.notifying }

abbrev pub wake_one : Option ℕ → ThreadPool → ThreadPool
wake_one none p = p
wake_one (some i) p = wake i p

-- Its `notify_one`, which wakes a thread if one waits
unfoldable pub notify_one : Option ℕ → ThreadPool → ThreadPool
notify_one woken p = wake_one woken (record p { notifying = p.notifying - 1 })

abbrev pub woken_up : Worker → Worker
woken_up ready = ready
woken_up waiting = ready
woken_up exited = exited
woken_up (running t) = running t

abbrev pub wake_all : List Worker → List Worker
wake_all [] = []
wake_all (v ∷ vs) = woken_up v ∷ wake_all vs

-- `~ThreadPool()`, up to where the mutex is unlocked; the threads have their own reference to the data.
abbrev pub destroy : ThreadPool → ThreadPool
destroy p = record p { stop = true }

-- Its `notify_all`
abbrev pub notify_all : ThreadPool → ThreadPool
notify_all p = record p { workers = wake_all p.workers }

-- The body of the loop, up to where the mutex is unlocked.
abbrev pub look : List ℕ → ℕ → ThreadPool → ThreadPool
look (t ∷ ts) i p = record p {
  tasks = ts;
  workers = set p.workers i (running t);
  started = p.started ++ t ∷ [];
}
look [] i p = put_worker i (if p.stop then exited else waiting) p

abbrev pub turn_of : Option Worker → ℕ → ThreadPool → ThreadPool
turn_of none i p = p
turn_of (some ready) i p = look p.tasks i p
turn_of (some waiting) i p = p
turn_of (some exited) i p = p
turn_of (some (running t)) i p = put_worker i ready p

-- What a thread does next: it looks for a task, or its task has returned.
unfoldable pub turn : ℕ → ThreadPool → ThreadPool
turn i p = turn_of (get_elem? p.workers i) i p

abbrev pub has_worker : (Worker → Bool) → List Worker → Bool
has_worker test [] = false
has_worker test (v ∷ vs) = test v || has_worker test vs

abbrev pub is_waiting : Worker → Bool
is_waiting waiting = true
is_waiting _ = false

-- `notify_one` may leave out a thread only where none waits.
abbrev pub Notifies : Option ℕ → ThreadPool → Type 0
Notifies none p = has_worker is_waiting p.workers ≡ false
Notifies (some i) p = get_elem? p.workers i ≡ some waiting

-- The pools of `size` threads in any interleaving, by the tasks that were submitted. Nothing is
-- submitted to a pool that is destroyed.
pub data Reach (size : ℕ) : List ℕ → ThreadPool → Type 0 where
  created : Reach size [] (create size)
  executed :
      {ts : List ℕ} {p : ThreadPool} (t : ℕ)
      → Reach size ts p
      → p.stop ≡ false
      → Reach size (ts ++ t ∷ []) (execute t p)
  notified_one :
      {ts : List ℕ} {p : ThreadPool} (woken : Option ℕ)
      → Reach size ts p
      → 0 < p.notifying
      → Notifies woken p
      → Reach size ts (notify_one woken p)
  destroyed : {ts : List ℕ} {p : ThreadPool} → Reach size ts p → Reach size ts (destroy p)
  notified_all :
      {ts : List ℕ} {p : ThreadPool}
      → Reach size ts p
      → p.stop ≡ true
      → Reach size ts (notify_all p)
  turned : {ts : List ℕ} {p : ThreadPool} (i : ℕ) → Reach size ts p → Reach size ts (turn i p)
  woke : {ts : List ℕ} {p : ThreadPool} (i : ℕ) → Reach size ts p → Reach size ts (wake i p)
