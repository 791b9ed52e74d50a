-- ===== src/Connector/Descriptors.antt =====
-- include/network/Connector.h: what becomes of the descriptors of an attempt.
use fluent_net.Prelude.{
  ℕ, ◌+◌, ◌≤◌, Bool, true, false, Option, List, [], ◌∷◌, ◌++◌, ◌≡◌, arith, if-both,
}
use fluent_net.Errors.{Result, ok, throw}
use fluent_net.Socket.Owners.{count}
use fluent_net.Socket.Calls.{Opened, opened, open_failed, create}
use fluent_net.Connector.{
  Attempt, Answers, renew, connect_again, and_connect, retry, wants_instance, wants_test, check,
  poll, poll_on, run,
}

pub count-append : (d : ℕ) (xs ys : List ℕ) → count d (xs ++ ys) ≡ count d xs + count d ys
count-append d [] ys = omega arith
count-append d (x ∷ xs) ys = ground (arith, count-append d xs ys)

-- The descriptors that the kernel gave in the polls.
abbrev pub given_by : Opened → List ℕ
given_by (opened fd) = fd ∷ []
given_by (open_failed errno) = []

abbrev pub given : List Answers → List ℕ
given [] = []
given (answers ∷ later) = given_by answers.socket ++ given later

-- How often an attempt has closed a descriptor or has it at hand.
abbrev pub has_had : ℕ → Attempt → ℕ
has_had d a = count d (a.closed ++ a.fd ∷ [])

-- No descriptor is forgotten, and none is there that the kernel did not give.
abbrev pub Accounts : {R : Type 0} → ℕ → Attempt → List Answers → R × Attempt → Type 0
Accounts d a polls (r, b) =
    (has_had d a ≤ has_had d b) × (has_had d b ≤ has_had d a + count d (given polls))

module _ (d : ℕ) where
  renew-Accounts :
      (socket : Opened) (c p : Option ℕ) (a : Attempt)
      → (let answers : Answers = record { socket = socket; connect = c; peer = p } in
          Accounts d a (answers ∷ []) (renew answers a))
  unfolding renew create
  renew-Accounts (opened fd) c p a =
      ground (arith, count-append d (a.closed ++ a.fd ∷ []) (fd ∷ []))
  renew-Accounts (open_failed errno) c p a = (omega arith, omega arith)

  and_connect-Accounts :
      (answers : Answers) (a : Attempt) (polls : List Answers) (r : Result (Unit {0}) × Attempt)
      → Accounts d a polls r
      → Accounts d a polls (and_connect answers r)
  unfolding connect_again
  and_connect-Accounts answers a polls (ok u, b) h = h
  and_connect-Accounts answers a polls (throw e, b) h = h

  retry-Accounts : (answers : Answers) (a : Attempt) → Accounts d a (answers ∷ []) (retry answers a)
  unfolding retry connect_again
  retry-Accounts answers a =
      if-both (Accounts d a (answers ∷ [])) a.next_instance _ _
        (and_connect-Accounts answers a (answers ∷ []) (renew answers a)
          (renew-Accounts answers.socket answers.connect answers.peer a))
        (omega arith, omega arith)

  check-Accounts : (answers : Answers) (a : Attempt) → Accounts d a (answers ∷ []) (check answers a)
  unfolding check
  check-Accounts answers a =
      if-both (Accounts d a (answers ∷ [])) (wants_instance a.err) _ _ (omega arith, omega arith)
        (if-both (Accounts d a (answers ∷ [])) (wants_test a.err) _ _ (omega arith, omega arith)
          (omega arith, omega arith))

  poll-Accounts : (answers : Answers) (a : Attempt) → Accounts d a (answers ∷ []) (poll answers a)
  unfolding poll
  poll-Accounts answers a =
      if-both (Accounts d a (answers ∷ [])) a.reconnect _ _ (retry-Accounts answers a)
        (check-Accounts answers a)

  given_first :
      (answers : Answers) (later : List Answers)
      → count d (given (answers ∷ later)) ≡ count d (given (answers ∷ [])) + count d (given later)
  given_first answers later = ground (
    arith,
    count-append d (given_by answers.socket) (given later),
    count-append d (given_by answers.socket) [],
  )

  poll_on-Accounts :
      (answers : Answers) (later : List Answers) (a : Attempt) (r : Result Bool × Attempt)
      → Accounts d a (answers ∷ []) r
      → ((b : Attempt) → Accounts d b later (run later b))
      → Accounts d a (answers ∷ later) (poll_on (run later) r)
  poll_on-Accounts answers later a (ok true, b) h ih =
      (h.0, omega (arith, h.1, given_first answers later))
  poll_on-Accounts answers later a (ok false, b) h ih =
      (omega (arith, h.0, (ih b).0), omega (arith, h.1, (ih b).1, given_first answers later))
  poll_on-Accounts answers later a (throw e, b) h ih =
      (h.0, omega (arith, h.1, given_first answers later))

  -- However the kernel answers: an attempt still has or has closed every descriptor that it had, and
  -- has no more than those and the ones that the kernel gave it.
  pub run-Accounts : (polls : List Answers) (a : Attempt) → Accounts d a polls (run polls a)
  unfolding run
  run-Accounts [] a = (omega arith, omega arith)
  run-Accounts (answers ∷ later) a =
      poll_on-Accounts answers later a (poll answers a) (poll-Accounts answers a)
        (run-Accounts later)
