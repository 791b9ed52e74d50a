-- ===== src/Gather.antt =====
-- include/future/FuturesInternal.h and Futures.h: whenN and its kin, which gather the values of
-- several futures. The closure that `poll` runs is a function of its captured state and of the shared
-- states that it finds; a vector that is used from its back is a list that begins there.
pub mod Scan
pub mod All
pub mod Found
pub mod Delivery
mod Tests
use fluent_net.Prelude.{
  ℕ, zero, suc, ◌+◌, Bool, true, false, Option, none, some, List, [], ◌∷◌, ◌++◌, get_elem?, length,
  if◌then◌else◌, ◌==◌, leb,
}
use fluent_net.Futures.{State, ready, posted, done, ControlBlock}

-- `hasValue`
abbrev pub has_value : State → Bool
has_value ready = true
has_value posted = true
has_value done = true
has_value _ = false

-- `QueryPair`: the index of a future and its shared state.
pub record Query : Type 0 where
  pub index : ℕ
  pub block : ℕ

-- The binder's two vectors and the captured `remain`.
pub record Gathering (T : Type 0) : Type 0 where
  pub queries : List Query
  pub results : List (ℕ × T)
  pub remain : ℕ

module _ {T A : Type 0} (blocks : List (ControlBlock T A)) (cond : T → Bool) where
  abbrev pub accept : T → Option T
  accept v = if cond v then some v else none

  -- `hasValue && cond(value)`, with the value
  unfoldable pub answer : Query → Option T
  answer q = elim (get_elem? blocks q.block) [
    | none ↦ none
    | some b ↦ if has_value b.state then accept b.value else none
  ]

  -- The `while` of the closure, with the vectors `queries`, `noresponse` and `results`; at its end the
  -- first two are swapped.
  unfoldable pub scan : List Query → List Query → List (ℕ × T) → ℕ → Gathering T
  scan queries noresponse results zero = record {
    queries = noresponse;
    results = results;
    remain = 0;
  }
  scan [] noresponse results (suc remain) = record {
    queries = noresponse;
    results = results;
    remain = suc remain;
  }
  scan (q ∷ queries) noresponse results (suc remain) = elim (answer q) [
    | none ↦ scan queries (q ∷ noresponse) results (suc remain)
    | some v ↦ scan queries noresponse (results ++ (q.index, v) ∷ []) remain
  ]

  -- The closure: what it answers `poll`, and what it has captured then.
  unfoldable pub gather : Gathering T → Bool × Gathering T
  gather g = let g' = scan g.queries [] g.results g.remain in (g'.remain == 0, g')

-- `queries.emplace_back(index, block)` for the futures in turn; the last one is at the back.
abbrev pub collect_from : ℕ → List ℕ → List Query → List Query
collect_from index [] queries = queries
collect_from index (b ∷ bs) queries =
    collect_from (suc index) bs (record { index = index; block = b } ∷ queries)

-- `whenNIf(n, first, last, cond)` before its first poll
abbrev pub when_n : {T : Type 0} → ℕ → List ℕ → Gathering T
when_n n blocks = record { queries = collect_from 0 blocks []; results = []; remain = n }

-- `whenN(n, first, last)` and `whenN(n, fut, futs...)`, whose condition holds of every value
abbrev pub any_value : {T : Type 0} → T → Bool
any_value v = true

-- The functor that `whenAny` leaves to `then`; `results[0]` of no results is none.
abbrev pub first_result : {T : Type 0} → List (ℕ × T) → Option (ℕ × T)
first_result [] = none
first_result (x ∷ xs) = some x

-- `std::sort` by the index
abbrev pub insert_result : {T : Type 0} → ℕ × T → List (ℕ × T) → List (ℕ × T)
insert_result x [] = x ∷ []
insert_result x (y ∷ ys) =
    let rest = insert_result x ys in if leb x.0 y.0 then x ∷ y ∷ ys else y ∷ rest

unfoldable pub sort_results : {T : Type 0} → List (ℕ × T) → List (ℕ × T)
sort_results [] = []
sort_results (x ∷ xs) = insert_result x (sort_results xs)
