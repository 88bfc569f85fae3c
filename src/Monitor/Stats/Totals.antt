-- ===== src/Monitor/Stats/Totals.antt =====
-- The snapshot counts what has been recorded.
use api_gateway.Monitor.Stats.{
  add_success, add_error, new_stats, global_snapshot, to_size, get_or_create, requested,
}
use api_gateway.Prelude.{
  refl, All, ◌<◌, ℕ, ◌+◌, ◌%◌, ◌^◌, ◌≡◌, List, [], ◌∷◌, Bytes, text_eq, arith, Bool-cases, inl, inr,
}
use api_gateway.Prelude.Map.{bytes_key, lookup, insert}
use api_gateway.Monitor.Stats.{
  change, record_error, record_success, GatewayStats, record_request, ℤ, RouteStats, new_route,
  created, total,
}

-- Changing one route's counter by `d` changes the sum by `d`.
total-insert :
    (f : RouteStats → ℕ) (d : ℕ) (r : RouteStats) (route : Bytes) (m : List (Bytes × RouteStats))
    → f new_route ≡ 0
    → f r % 2 ^ 64 ≡ (f (created (lookup route m)) + d) % 2 ^ 64
    → total f (insert route r m) ≡ (total f m + d) % 2 ^ 64
unfolding total lookup insert created
total-insert f d r route [] z e = omega (arith, z, e)
total-insert f d r route ((k, s) ∷ m) z e = elim (Bool-cases (text_eq k route)) [
  | inl same ↦ ground (arith)
  | inr other ↦ ground (arith, total-insert f d r route m z)
]

-- What is recorded about a request.
pub data Event : Type 0 where
  answered : Bytes → ℤ → Event
  succeeded : Bytes → Event
  erred : Bytes → Event

abbrev pub record_event : Event → GatewayStats → GatewayStats
record_event (answered route latency) s = record_request route latency s
record_event (succeeded route) s = record_success route s
record_event (erred route) s = record_error route s

-- Events in a row, the first one first.
unfoldable pub record_all : List Event → GatewayStats → GatewayStats
record_all [] s = s
record_all (e ∷ es) s = record_all es (record_event e s)

abbrev pub is_answer : Event → ℕ
is_answer (answered route latency) = 1
is_answer _ = 0

abbrev pub is_success : Event → ℕ
is_success (succeeded route) = 1
is_success _ = 0

abbrev pub is_error : Event → ℕ
is_error (erred route) = 1
is_error _ = 0

unfoldable pub count : (Event → ℕ) → List Event → ℕ
count f [] = 0
count f (e ∷ es) = f e + count f es

abbrev Counted : (Event → ℕ) → (RouteStats → ℕ) → Event → GatewayStats → Type 0
Counted is f e s = total f (record_event e s).routes ≡ (total f s.routes + is e) % 2 ^ 64

changed-Counted :
    (f : RouteStats → ℕ) (d : ℕ) (g : RouteStats → RouteStats) (route : Bytes) (s : GatewayStats)
    → f new_route ≡ 0
    → ((r : RouteStats) → f (g r) % 2 ^ 64 ≡ (f r + d) % 2 ^ 64)
    → total f (change route g s).routes ≡ (total f s.routes + d) % 2 ^ 64
unfolding change
changed-Counted f d g route s z h =
    total-insert f d (g (get_or_create route s)) route s.routes z (h (get_or_create route s))

answers-Counted : (e : Event) (s : GatewayStats) → Counted is_answer (λ r. r.total_requests) e s
unfolding record_request record_success record_error requested add_success add_error
answers-Counted (answered route l) s =
    changed-Counted (λ r. r.total_requests) 1 (requested (to_size l)) route s refl
      (λ r. omega arith)
answers-Counted (succeeded route) s =
    changed-Counted (λ r. r.total_requests) 0 add_success route s refl (λ r. omega arith)
answers-Counted (erred route) s =
    changed-Counted (λ r. r.total_requests) 0 add_error route s refl (λ r. omega arith)

successes-Counted : (e : Event) (s : GatewayStats) → Counted is_success (λ r. r.success_count) e s
unfolding record_request record_success record_error requested add_success add_error
successes-Counted (answered route l) s =
    changed-Counted (λ r. r.success_count) 0 (requested (to_size l)) route s refl (λ r. omega arith)
successes-Counted (succeeded route) s =
    changed-Counted (λ r. r.success_count) 1 add_success route s refl (λ r. omega arith)
successes-Counted (erred route) s =
    changed-Counted (λ r. r.success_count) 0 add_error route s refl (λ r. omega arith)

errors-Counted : (e : Event) (s : GatewayStats) → Counted is_error (λ r. r.error_count) e s
unfolding record_request record_success record_error requested add_success add_error
errors-Counted (answered route l) s =
    changed-Counted (λ r. r.error_count) 0 (requested (to_size l)) route s refl (λ r. omega arith)
errors-Counted (succeeded route) s =
    changed-Counted (λ r. r.error_count) 0 add_success route s refl (λ r. omega arith)
errors-Counted (erred route) s =
    changed-Counted (λ r. r.error_count) 1 add_error route s refl (λ r. omega arith)

all-Counted :
    (is : Event → ℕ) (f : RouteStats → ℕ)
    → ((e : Event) (s : GatewayStats) → Counted is f e s)
    → (es : List Event) (s : GatewayStats)
    → total f (record_all es s).routes % 2 ^ 64 ≡ (total f s.routes + count is es) % 2 ^ 64
unfolding record_all count
all-Counted is f h [] s = omega arith
all-Counted is f h (e ∷ es) s = omega (arith, all-Counted is f h es (record_event e s), h e s)

total-lt : (f : RouteStats → ℕ) (m : List (Bytes × RouteStats)) → total f m < 2 ^ 64
unfolding total
total-lt f [] = omega arith
total-lt f ((k, r) ∷ m) = omega arith

-- After any sequence of records on new statistics, over whichever routes, the global snapshot has
-- the number of requests, of successes and of errors that were recorded, in 64 bits.
pub snapshot-count :
    (es : List Event)
    → let snap = global_snapshot (record_all es new_stats) in
      (snap.total_requests ≡ count is_answer es % 2 ^ 64)
      × ((snap.total_success ≡ count is_success es % 2 ^ 64)
          × (snap.total_errors ≡ count is_error es % 2 ^ 64))
unfolding global_snapshot
snapshot-count es =
    let m = (record_all es new_stats).routes in
    (
      omega (
        arith,
        all-Counted is_answer _ answers-Counted es new_stats,
        total-lt (λ r. r.total_requests) m,
      ),
      (
        omega (
          arith,
          all-Counted is_success _ successes-Counted es new_stats,
          total-lt (λ r. r.success_count) m,
        ),
        omega (
          arith,
          all-Counted is_error _ errors-Counted es new_stats,
          total-lt (λ r. r.error_count) m,
        ),
      ),
    )

abbrev IsIdle : List (Bytes × RouteStats) → Type 0
IsIdle m = All (λ p. p.1.in_flight ≡ 0) m

lookup-IsIdle :
    (route : Bytes) (m : List (Bytes × RouteStats))
    → IsIdle m
    → (created (lookup route m)).in_flight ≡ 0
unfolding lookup created
lookup-IsIdle route [] h = refl
lookup-IsIdle route ((k, r) ∷ m) (h, t) = ground (arith, lookup-IsIdle route m t)

insert-IsIdle :
    (route : Bytes) (r : RouteStats) (m : List (Bytes × RouteStats))
    → r.in_flight ≡ 0
    → IsIdle m
    → IsIdle (insert route r m)
unfolding insert
insert-IsIdle route r [] z h = (z, tt)
insert-IsIdle route r ((k, s) ∷ m) z (h, t) = elim (Bool-cases (text_eq k route)) [
  | inl same ↦ rw (same, insert) (z, t)
  | inr other ↦ rw (other, insert) (h, insert-IsIdle route r m z t)
]

change-IsIdle :
    (route : Bytes) (g : RouteStats → RouteStats) (s : GatewayStats)
    → ((r : RouteStats) → r.in_flight ≡ 0 → (g r).in_flight ≡ 0)
    → IsIdle s.routes
    → IsIdle (change route g s).routes
unfolding change
change-IsIdle route g s keep h =
    insert-IsIdle route (g (get_or_create route s)) s.routes
      (keep (get_or_create route s) (lookup-IsIdle route s.routes h)) h

record_event-IsIdle :
    (e : Event) (s : GatewayStats) → IsIdle s.routes → IsIdle (record_event e s).routes
unfolding record_request record_success record_error requested add_success add_error
record_event-IsIdle (answered route l) s h =
    change-IsIdle route (requested (to_size l)) s (λ r z. ground arith) h
record_event-IsIdle (succeeded route) s h = change-IsIdle route add_success s (λ r z. z) h
record_event-IsIdle (erred route) s h = change-IsIdle route add_error s (λ r z. z) h

record_all-IsIdle :
    (es : List Event) (s : GatewayStats) → IsIdle s.routes → IsIdle (record_all es s).routes
unfolding record_all
record_all-IsIdle [] s h = h
record_all-IsIdle (e ∷ es) s h = record_all-IsIdle es (record_event e s) (record_event-IsIdle e s h)

total-IsIdle : (m : List (Bytes × RouteStats)) → IsIdle m → total (λ r. r.in_flight) m ≡ 0
unfolding total
total-IsIdle [] h = refl
total-IsIdle ((k, r) ∷ m) (h, t) = omega (arith, h, total-IsIdle m t)

-- After any sequence of records on new statistics the global snapshot shows no request in flight.
pub snapshot-in_flight :
    (es : List Event) → (global_snapshot (record_all es new_stats)).in_flight ≡ 0
unfolding global_snapshot
snapshot-in_flight es =
    total-IsIdle (record_all es new_stats).routes (record_all-IsIdle es new_stats tt)
