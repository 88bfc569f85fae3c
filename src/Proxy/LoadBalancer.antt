-- ===== src/Proxy/LoadBalancer.antt =====
-- The load balancer, src/proxy/load_balancer.cpp. The random index is an argument, drawn from the
-- range of `uniform_int_distribution`. `operator[]` makes an entry of 0, which is not told from a
-- missing one. An index outside the list, which the source never uses, gives the empty backend.
pub mod RoundRobin
pub mod Counts
pub mod LeastConnections
mod Tests
use api_gateway.Prelude.{
  ℕ, zero, suc, ◌+◌, ◌-◌, ◌%◌, ◌^◌, Bool, true, false, Option, none, some, List, [], ◌∷◌, ◌++◌,
  Bytes, length, get_elem?, ltb, ◌==◌, if◌then◌else◌,
}
use api_gateway.Prelude.Int.{ℤ, pos}
use api_gateway.Prelude.Map.{bytes_key, lookup, insert}
use api_gateway.Prelude.Decimal.{to_string}
use api_gateway.Core.Config.{Backend}

pub data LbAlgorithm : Type 0 where
  round_robin random least_connections : LbAlgorithm

pub record LoadBalancer : Type 0 where
  pub algo : LbAlgorithm
  pub rr_counter : ℕ
  pub conn_counts : List (Bytes × ℕ)

unfoldable pub make_key : Backend → Bytes
make_key b = b.host ++ (b':' ∷ to_string b.port)

abbrev pub no_backend : Backend
no_backend = record { host = []; port = pos 0 }

abbrev pub backend_at : List Backend → ℕ → Backend
backend_at [] i = no_backend
backend_at (b ∷ bs) zero = b
backend_at (b ∷ bs) (suc i) = backend_at bs i

count_or_zero : Option ℕ → ℕ
count_or_zero none = 0
count_or_zero (some n) = n

-- `conn_counts_[key]`
unfoldable pub count_of : Bytes → List (Bytes × ℕ) → ℕ
unfolding count_or_zero
count_of key counts = count_or_zero (lookup key counts)

unfoldable pub on_connect : Backend → LoadBalancer → LoadBalancer
on_connect b lb = record lb {
  conn_counts = insert (make_key b) (count_of (make_key b) lb.conn_counts + 1) lb.conn_counts;
}

unfoldable pub on_disconnect : Backend → LoadBalancer → LoadBalancer
on_disconnect b lb =
    if ltb 0 (count_of (make_key b) lb.conn_counts)
    then record lb {
      conn_counts = insert (make_key b) (count_of (make_key b) lb.conn_counts - 1) lb.conn_counts;
    }
    else lb

-- The counter is an atomic `size_t`.
unfoldable pub select_round_robin : List Backend → LoadBalancer → LoadBalancer × Backend
select_round_robin backends lb = (
  record lb { rr_counter = (lb.rr_counter + 1) % 2 ^ 64 },
  backend_at backends (lb.rr_counter % length backends),
)

unfoldable pub select_random : ℕ → List Backend → LoadBalancer → LoadBalancer × Backend
select_random draw backends lb = (lb, backend_at backends draw)

-- The order of two `size_t` counts that are read as `int`: the sign bit is turned round.
abbrev pub int_order : ℕ → ℕ
int_order n = (n + 2 ^ 31) % 2 ^ 32

-- The loop over the other backends, with the best one so far.
unfoldable pub fewest : List (Bytes × ℕ) → Backend → ℕ → List Backend → Backend
fewest counts best min_conn [] = best
fewest counts best min_conn (b ∷ bs) =
    let better = ltb (int_order (count_of (make_key b) counts)) (int_order min_conn) in
    fewest counts (if better then b else best)
      (if better then count_of (make_key b) counts else min_conn) bs

unfoldable pub least_of : List (Bytes × ℕ) → List Backend → Backend
unfolding fewest
least_of counts [] = no_backend
least_of counts (b ∷ bs) = fewest counts b (count_of (make_key b) counts) bs

-- The chosen backend is counted at once.
unfoldable pub select_least_connections : List Backend → LoadBalancer → LoadBalancer × Backend
select_least_connections backends lb =
    let best = least_of lb.conn_counts backends in
    (
      record lb {
        conn_counts =
            insert (make_key best) (count_of (make_key best) lb.conn_counts + 1) lb.conn_counts;
      },
      best,
    )

select_by : LbAlgorithm → ℕ → List Backend → LoadBalancer → LoadBalancer × Backend
select_by round_robin draw backends lb = select_round_robin backends lb
select_by random draw backends lb = select_random draw backends lb
select_by least_connections draw backends lb = select_least_connections backends lb

unfoldable pub select : ℕ → List Backend → LoadBalancer → LoadBalancer × Backend
unfolding select_by
select draw [] lb = (lb, no_backend)
select draw (b ∷ []) lb = (lb, b)
select draw (b ∷ c ∷ bs) lb = select_by lb.algo draw (b ∷ c ∷ bs) lb
