-- ===== src/Proxy/LoadBalancer/Tests.antt =====
-- Runs of the load balancer, and its theorems with two backends.
use mathlib.Core.List.{Mem}
use api_gateway.Prelude.{
  ◌+◌, ◌≡◌, ◌≤◌, refl, List, [], ◌∷◌, bytes, All, text_eq, if◌then◌else◌, arith,
}
use api_gateway.Prelude.Int.{pos}
use api_gateway.Prelude.Map.{lookup}
use api_gateway.Prelude.Decimal.{to_string}
use api_gateway.Core.Config.{Backend}
use api_gateway.Proxy.LoadBalancer.{
  LoadBalancer, round_robin, least_connections, make_key, count_of, least_of, select,
  select_least_connections,
}
use api_gateway.Proxy.LoadBalancer.RoundRobin.{selections, selections-rotation}
use api_gateway.Proxy.LoadBalancer.LeastConnections.{select-least_connections}

abbrev first : Backend
first = record { host = bytes "a"; port = pos 9001 }

abbrev second : Backend
second = record { host = bytes "b"; port = pos 9002 }

abbrev pair : List Backend
pair = first ∷ second ∷ []

abbrev rotating : LoadBalancer
rotating = record { algo = round_robin; rr_counter = 7; conn_counts = [] }

abbrev counting : LoadBalancer
counting = record {
  algo = least_connections;
  rr_counter = 0;
  conn_counts = (bytes "a:9001", 2) ∷ [];
}

key_of_first : make_key first ≡ bytes "a:9001"
unfolding make_key to_string
key_of_first = refl

second_is_free : (select 0 pair counting).1 ≡ second
unfolding select select_least_connections least_of count_of lookup text_eq make_key to_string
second_is_free = refl

selections-rotation_example : selections 2 pair rotating ≡ second ∷ first ∷ []
selections-rotation_example = selections-rotation pair rotating (omega arith) refl (omega arith)

select-least_connections_example :
    Mem (select 0 pair counting).1 pair
    × All
        (λ b.
          count_of (make_key (select 0 pair counting).1) counting.conn_counts
          ≤ count_of (make_key b) counting.conn_counts)
        pair
    × (count_of (bytes "x") (select 0 pair counting).0.conn_counts ≡ (
        if text_eq (make_key (select 0 pair counting).1) (bytes "x")
        then count_of (bytes "x") counting.conn_counts + 1
        else count_of (bytes "x") counting.conn_counts))
unfolding count_of make_key lookup text_eq to_string
select-least_connections_example =
    select-least_connections 0 pair counting (bytes "x") (omega arith) refl (omega arith)
