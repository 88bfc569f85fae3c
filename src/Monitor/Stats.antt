-- ===== src/Monitor/Stats.antt =====
-- The statistics of src/monitor/stats.cpp. Counters are 64-bit atomics; a recording call is one
-- step. An average is the quotient that the source computes in doubles, kept as its two numbers.
pub mod Totals
mod Tests
use api_gateway.Prelude.{
  ℕ, ◌+◌, ◌-◌, ◌%◌, ◌^◌, Bool, Option, none, some, List, [], ◌∷◌, Bytes, ltb, ◌==◌, if◌then◌else◌,
}
use api_gateway.Prelude.Int.{ℤ, to_size}
use api_gateway.Prelude.Map.{bytes_key, lookup, insert}

pub record RouteStats : Type 0 where
  pub total_requests : ℕ
  pub success_count : ℕ
  pub error_count : ℕ
  pub latency_sum_ms : ℕ
  pub latency_max_ms : ℕ
  pub in_flight : ℕ

pub record GatewayStats : Type 0 where
  pub routes : List (Bytes × RouteStats)
  pub upstream_errors : ℕ
  pub cb_trips : ℕ
  pub rate_limited : ℕ

abbrev pub new_route : RouteStats
new_route = record {
  total_requests = 0;
  success_count = 0;
  error_count = 0;
  latency_sum_ms = 0;
  latency_max_ms = 0;
  in_flight = 0;
}

abbrev pub new_stats : GatewayStats
new_stats = record { routes = []; upstream_errors = 0; cb_trips = 0; rate_limited = 0 }

-- The counters of a route, created when they are not there.
unfoldable pub created : Option RouteStats → RouteStats
created none = new_route
created (some r) = r

unfoldable pub get_or_create : Bytes → GatewayStats → RouteStats
unfolding created
get_or_create route s = created (lookup route s.routes)

-- The counters of a route changed in place.
unfoldable pub change : Bytes → (RouteStats → RouteStats) → GatewayStats → GatewayStats
unfolding get_or_create
change route f s = record s { routes = insert route (f (get_or_create route s)) s.routes }

unfoldable pub requested : ℕ → RouteStats → RouteStats
requested new_val r = record r {
  total_requests = (r.total_requests + 1) % 2 ^ 64;
  latency_sum_ms = (r.latency_sum_ms + new_val) % 2 ^ 64;
  latency_max_ms = if ltb r.latency_max_ms new_val then new_val else r.latency_max_ms;
  in_flight = if ltb 0 r.in_flight then r.in_flight - 1 else r.in_flight;
}

unfoldable pub record_request : Bytes → ℤ → GatewayStats → GatewayStats
unfolding change requested
record_request route latency_ms s = change route (requested (to_size latency_ms)) s

unfoldable pub add_success : RouteStats → RouteStats
add_success r = record r { success_count = (r.success_count + 1) % 2 ^ 64 }

unfoldable pub add_error : RouteStats → RouteStats
add_error r = record r { error_count = (r.error_count + 1) % 2 ^ 64 }

unfoldable pub record_success : Bytes → GatewayStats → GatewayStats
unfolding change add_success
record_success route s = change route add_success s

unfoldable pub record_error : Bytes → GatewayStats → GatewayStats
unfolding change add_error
record_error route s = change route add_error s

unfoldable pub inc_upstream_errors : GatewayStats → GatewayStats
inc_upstream_errors s = record s { upstream_errors = (s.upstream_errors + 1) % 2 ^ 64 }

unfoldable pub inc_circuit_breaker_trips : GatewayStats → GatewayStats
inc_circuit_breaker_trips s = record s { cb_trips = (s.cb_trips + 1) % 2 ^ 64 }

unfoldable pub inc_rate_limited : GatewayStats → GatewayStats
inc_rate_limited s = record s { rate_limited = (s.rate_limited + 1) % 2 ^ 64 }

-- A sum and the number by which it is divided, if that is not 0.
unfoldable pub average : ℕ → ℕ → Option (ℕ × ℕ)
average sum total = if total == 0 then none else some (sum, total)

unfoldable pub avg_latency_ms : RouteStats → Option (ℕ × ℕ)
unfolding average
avg_latency_ms r = average r.latency_sum_ms r.total_requests

pub record RouteSnapshot : Type 0 where
  pub stats : RouteStats
  pub avg_latency_ms : Option (ℕ × ℕ)

unfoldable pub snapshot_of : RouteStats → RouteSnapshot
unfolding average
snapshot_of r = record { stats = r; avg_latency_ms = average r.latency_sum_ms r.total_requests }

unfoldable pub snapshots : List (Bytes × RouteStats) → List (Bytes × RouteSnapshot)
unfolding snapshot_of
snapshots [] = []
snapshots ((name, r) ∷ m) = (name, snapshot_of r) ∷ snapshots m

unfoldable pub route_snapshot : GatewayStats → List (Bytes × RouteSnapshot)
unfolding snapshots
route_snapshot s = snapshots s.routes

pub record Snapshot : Type 0 where
  pub total_requests : ℕ
  pub total_success : ℕ
  pub total_errors : ℕ
  pub avg_latency_ms : Option (ℕ × ℕ)
  pub max_latency_ms : ℕ
  pub in_flight : ℕ
  pub upstream_errors : ℕ
  pub circuit_breaker_trips : ℕ
  pub rate_limited : ℕ

-- The sum of one counter over the routes, in 64 bits, and the greatest of one.
unfoldable pub total : (RouteStats → ℕ) → List (Bytes × RouteStats) → ℕ
total f [] = 0
total f ((name, r) ∷ m) = (f r + total f m) % 2 ^ 64

unfoldable pub greatest : (RouteStats → ℕ) → List (Bytes × RouteStats) → ℕ
greatest f [] = 0
greatest f ((name, r) ∷ m) = if ltb (greatest f m) (f r) then f r else greatest f m

unfoldable pub global_snapshot : GatewayStats → Snapshot
unfolding total greatest average
global_snapshot s = record {
  total_requests = total (λ r. r.total_requests) s.routes;
  total_success = total (λ r. r.success_count) s.routes;
  total_errors = total (λ r. r.error_count) s.routes;
  avg_latency_ms =
      average (total (λ r. r.latency_sum_ms) s.routes) (total (λ r. r.total_requests) s.routes);
  max_latency_ms = greatest (λ r. r.latency_max_ms) s.routes;
  in_flight = total (λ r. r.in_flight) s.routes;
  upstream_errors = s.upstream_errors;
  circuit_breaker_trips = s.cb_trips;
  rate_limited = s.rate_limited;
}

unfoldable pub reset_all : GatewayStats → GatewayStats
reset_all s = record { routes = []; upstream_errors = 0; cb_trips = 0; rate_limited = 0 }
