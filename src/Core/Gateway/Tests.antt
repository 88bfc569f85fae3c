-- ===== src/Core/Gateway/Tests.antt =====
-- Runs of the gateway.
use mathlib.Core.List.{Mem}
use api_gateway.Prelude.Sorting.{insertion_sort}
use api_gateway.Core.Gateway.Collecting.{backend_less, collect_all_backends, all_backends}
use api_gateway.Core.Gateway.Sorted.{backend_insertion}
use api_gateway.Core.Gateway.Distinct.{IsDistinct, collect_all_backends-IsDistinct}
use api_gateway.Core.Gateway.Accepting.{
  Connections, no_connections, on_new_connection, cleanup_idle_connections,
}
use api_gateway.Core.Gateway.Accepting.Counting.{Step, Reach, connection_count-open}
use api_gateway.Prelude.Map.{insert}
use api_gateway.Prelude.{
  arith, List, ℕ, ◌↔◌, ◌≤◌, ◌≡◌, refl, true, false, some, [], ◌∷◌, ◌++◌, ◌&&◌, Bytes, bytes, crlf,
  double_crlf, is_empty, find, starts_with,
}
use api_gateway.Prelude.Int.{pos}
use api_gateway.Core.Config.{Route, Backend}
use api_gateway.Core.Gateway.{Gateway, Circumstances, Reply, process_request}
use api_gateway.Core.Gateway.Answering.{with_timeouts, process_request-served}
use api_gateway.Core.Gateway.Headers.{add_extra_into_body}
use api_gateway.Core.Gateway.Splicing.{add_extra, add_close, says_close, has_conn, close_line}
use api_gateway.Filter.Chain.{request_id, logging}
use api_gateway.Monitor.Stats.{new_stats}
use api_gateway.Proxy.LoadBalancer.{round_robin, count_of}
use api_gateway.Proxy.BackendConnection.{in_progress, nothing_yet, got, sent}
use api_gateway.Proxy.BackendPool.{backend_pool}
use api_gateway.Proxy.Forwarding.Answering.{active_in}

abbrev backend : Backend
backend = record { host = bytes "h"; port = pos 80 }

abbrev head : Bytes
head = bytes "HTTP/1.1 200 OK" ++ (crlf ++ bytes "Content-Length: 2")

abbrev gateway : Gateway
gateway = record {
  backend_timeout_ms = 3000;
  router = record { prefix = bytes "/api"; backends = backend ∷ [] } ∷ [];
  proxy = some (backend_pool 8 60);
  load_balancer = record { algo = round_robin; rr_counter = 0; conn_counts = [] };
  circuit_breakers = [];
  filters = request_id ∷ logging ∷ [];
  stats = new_stats;
}

abbrev calm : Circumstances
calm = record {
  moment = record { nanoseconds = 1; seconds = 0; generated = bytes "0badcafe" };
  later = 2;
  draw = 0;
  answers = record {
    now = 3;
    ident = 0;
    look = λ i. (true, nothing_yet);
    dial = record {
      fd = pos 5;
      address_ok = true;
      connecting = in_progress;
      writable = true;
      without_error = true;
    };
    sending = sent 100 ∷ [];
    receiving = got (head ++ (double_crlf ++ bytes "ok")) ∷ [];
    look_after = λ i. (true, nothing_yet);
  };
  elapsed = pos 4;
  print_average = λ a. bytes "0";
}

abbrev request : Bytes
request = bytes "GET /api/x HTTP/1.1" ++ double_crlf

process_request-served_example :
    (r : Gateway × Reply) × ((process_request (with_timeouts calm) request gateway ≡ some r)
      × (((is_empty r.1.text ≡ false) × ((r.1.keep_alive && says_close r.1.text) ≡ false))
          × (((j : Bytes) → active_in j r.0.proxy ≡ active_in j gateway.proxy)
              × ((j : Bytes)
                  → count_of j r.0.load_balancer.conn_counts
                    ≡ count_of j gateway.load_balancer.conn_counts))))
process_request-served_example = process_request-served calm request gateway refl

add_extra_into_body_example :
    add_extra
      ((bytes "X-Request-Id", bytes "7") ∷ [])
      (add_close (head ++ (double_crlf ++ bytes "ok")))
    ≡ head ++ (close_line ++ (double_crlf ++ bytes "X-Request-Id: 7") ++ (crlf ++ bytes "ok"))
unfolding find starts_with has_conn
add_extra_into_body_example =
    add_extra_into_body (bytes "X-Request-Id") (bytes "7") head (bytes "ok") refl refl refl

abbrev named : Bytes
named = head ++ (crlf ++ (bytes "Connection: keep-alive" ++ (double_crlf ++ bytes "ok")))

abbrev here_9001 : Backend
here_9001 = record { host = bytes "127.0.0.1"; port = pos 9001 }

abbrev shared_routes : List Route
shared_routes =
    record { prefix = bytes "/a"; backends = here_9001 ∷ [] }
    ∷ record { prefix = bytes "/b"; backends = here_9001 ∷ [] }
    ∷ []

collected : collect_all_backends backend_insertion shared_routes ≡ here_9001 ∷ []
unfolding collect_all_backends insertion_sort backend_less
collected = refl

collect_all_backends-IsDistinct_example :
    IsDistinct (collect_all_backends backend_insertion shared_routes)
    × ((b : Backend)
        → Mem b (collect_all_backends backend_insertion shared_routes)
          ↔ Mem b (all_backends shared_routes))
collect_all_backends-IsDistinct_example =
    collect_all_backends-IsDistinct backend_insertion shared_routes

abbrev one_connection : Connections ℕ
one_connection = record (no_connections (pos 1) (pos 10)) {
  connections = (7, 0) ∷ [];
  connection_count = pos 1;
}

-- A second connection is over the limit of one.
second_rejected : on_new_connection 8 0 one_connection ≡ (false, one_connection)
unfolding on_new_connection
second_rejected = refl

idle_forced :
    cleanup_idle_connections (λ time. time) 11 one_connection
    ≡ (record one_connection { connections = [] }, 0 ∷ [])
unfolding cleanup_idle_connections
idle_forced = refl

connection_count-open_example : (pos 1 ≡ pos 1) × (1 ≤ 1)
unfolding on_new_connection insert
connection_count-open_example =
    connection_count-open (λ time. time) 1 10 {open_fds = 7 ∷ []} {c = one_connection} (omega arith)
      (Reach.next Reach.here (Step.keeps 7 0 refl refl))
