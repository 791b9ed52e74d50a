-- ===== src/Reactor/Safety.antt =====
-- include/app/Server.h: the reports of a batch find their connections, also behind an `accept`.
use fluent_net.Prelude.{
  ℕ, zero, suc, true, false, Option, none, some, List, [], ◌∷◌, ◌≡◌, refl, ap, ◌∙◌, arith, set,
  length, length-set, All,
}
use fluent_net.Handler.{Handler, Answers, handle_new_context}
use fluent_net.Multiplexer.{Multiplexer, Event, visit}
use fluent_net.WeakReference.Bounds.{IsBounded}
use fluent_net.Pool.{Connection, Pool, slot_is_reusable, emplace}
use fluent_net.Pool.Emplace.{emplace_lem}
use fluent_net.Reactor.{
  Report, Reactor, Slots, handled, handle_reports, handle_events, add_connection, new_connection,
  loop_slots, loop,
}
use fluent_net.Reactor.Servers.{handle_and_loop}
use fluent_net.Reactor.Tables.{
  has, is_at, is_open_at, has-is_at, has-set, has-IsPlaced, IsUpdated, at_bundle-IsUpdated,
  slot_has,
}

pub same-IsBounded :
    (p : Pool) (xs : Slots)
    → IsBounded p
    → length xs ≡ length p.container
    → IsBounded (record p { container = xs })
same-IsBounded p xs b e = record {
  ordered = b.ordered;
  below = b.below;
  inside = rw e b.inside;
  started = b.started;
}

-- The connections that the reports are about are there.
abbrev pub AreThere : Slots → List (Event Report) → Type 0
AreThere slots = All (λ e. has (is_at e.report.bundle) slots ≡ true)

later-AreThere :
    (xs ys : Slots) (es : List (Event Report)) → IsUpdated xs ys → AreThere xs es → AreThere ys es
later-AreThere xs ys [] u h = tt
later-AreThere xs ys (e ∷ es) u (h, hs) =
    (u.addresses e.report.bundle ∙ h, later-AreThere xs ys es u hs)

reports-IsUpdated :
    (h : Handler) (es : List (Event Report)) (xs : Slots)
    → AreThere xs es
    → (ys : Slots) × (handle_reports h es xs ≡ some ys) × IsUpdated xs ys
unfolding handle_reports
reports-IsUpdated h [] xs t = (xs, refl, record { addresses = λ b. refl; size = refl })
reports-IsUpdated h (e ∷ es) xs (t, ts) =
    let (ys, found, u) = at_bundle-IsUpdated e.report.bundle (handled h e.report) xs t in
    let (zs, done, v) = reports-IsUpdated h es ys (later-AreThere xs ys es u ts) in
    (
      zs,
      rw (handle_reports, found) done,
      record { addresses = λ b. v.addresses b ∙ u.addresses b; size = v.size ∙ u.size },
    )

visit-cleared :
    (vectors : List (List (Event Report))) (t : ℕ) (m : Multiplexer Report)
    → visit t (record m { event_vectors = set vectors t [] }) ≡ []
unfolding visit
visit-cleared [] t m = refl
visit-cleared (v ∷ vs) zero m = refl
visit-cleared (v ∷ vs) (suc t) m = visit-cleared vs t m

length-loop_slots : (xs : Slots) → length (loop_slots xs) ≡ length xs
unfolding loop_slots
length-loop_slots [] = refl
length-loop_slots (none ∷ xs) = ap suc (length-loop_slots xs)
length-loop_slots (some c ∷ xs) = ap suc (length-loop_slots xs)

-- Between two batches no report waits.
pub record IsSound (r : Reactor) : Type 0 where
  pub bounded : IsBounded r.connections
  pub handled_all : visit r.token r.multiplexer ≡ []
  pub own : r.is_outer ≡ false

pub closed_slot :
    (b : ℕ) (old : Option Connection)
    → slot_is_reusable old ≡ true
    → slot_has (is_open_at b) old ≡ false
closed_slot b none e = refl
closed_slot b (some c) e = ground (arith, e)

module _ (h : Handler) where
  -- A new connection takes no place of one that the pool does not give up.
  pub add_connection-has :
      (answers : Answers) (r : Reactor) (b : ℕ)
      → IsBounded r.connections
      → has (is_open_at b) r.connections.container ≡ true
      → has (is_at b) (add_connection h answers r).1.connections.container ≡ true
  unfolding add_connection
  add_connection-has answers r b bounded t =
      let c = new_connection r.next_bundle r.token in
      let (_, found, placed) = emplace_lem r.connections c bounded in
      let (index, p) = emplace r.connections c in
      let c' : Connection = record c { world = (handle_new_context h answers c.world).1 } in
      has-set (is_at b) p.container index c c' found refl
      ∙ has-is_at b p.container (
          has-IsPlaced (is_open_at b) c r.connections.container p.container (closed_slot b) placed
            t)

  pub add_connection-IsBounded :
      (answers : Answers) (r : Reactor)
      → IsBounded r.connections
      → IsBounded (add_connection h answers r).1.connections
  unfolding add_connection
  add_connection-IsBounded answers r bounded =
      let c = new_connection r.next_bundle r.token in
      let (kept, _, _) = emplace_lem r.connections c bounded in
      let (index, p) = emplace r.connections c in
      let c' : Connection = record c { world = (handle_new_context h answers c.world).1 } in
      same-IsBounded p (set p.container index (some c')) kept
        (length-set p.container index (some c'))

  -- What `handleEvents` and the looper leave.
  pub handle_events-IsSound :
      (r : Reactor)
      → IsBounded r.connections
      → r.is_outer ≡ false
      → AreThere r.connections.container (visit r.token r.multiplexer)
      → (r' : Reactor) × (handle_and_loop h r ≡ some r') × IsSound r'
  unfolding handle_and_loop handle_events
  handle_events-IsSound r bounded own there =
      let m = r.multiplexer in
      let (ys, done, u) = reports-IsUpdated h (visit r.token m) r.connections.container there in
      let r' : Reactor = record r {
        multiplexer = record m { event_vectors = set m.event_vectors r.token [] };
        connections = record (r.connections) { container = ys };
      } in
      let cleared : handle_events h r ≡ some r' = rw (handle_events, done) refl in
      (
        loop r',
        rw (handle_and_loop, cleared) refl,
        record {
          bounded =
              same-IsBounded r.connections (loop_slots ys) bounded (length-loop_slots ys ∙ u.size);
          handled_all = visit-cleared m.event_vectors r.token m;
          own = own;
        },
      )
