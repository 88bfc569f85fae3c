-- ===== src/Core/Gateway/Endpoints.antt =====
-- The endpoints that the gateway answers itself, in `handle_internal_endpoint` of
-- src/core/gateway.cpp. How a stream prints a `double` is an argument.
use api_gateway.Prelude.{
  ℕ, Bool, true, false, ◌||◌, Option, none, some, List, [], ◌∷◌, ◌++◌, Bytes, bytes, crlf, text_eq,
  is_empty, if◌then◌else◌,
}
use api_gateway.Prelude.Decimal.{decimal}
use api_gateway.Monitor.Stats.{
  GatewayStats, RouteSnapshot, Snapshot, global_snapshot, route_snapshot,
}

abbrev quote : Bytes
quote = 34 ∷ []

-- A name in quotes, and a colon.
abbrev key : Bytes → Bytes
key name = quote ++ (name ++ (quote ++ bytes ":"))

abbrev count : Bytes → ℕ → Bytes
count name n = key name ++ decimal n

abbrev pub health_response : Bytes
health_response =
    bytes "HTTP/1.1 200 OK"
    ++ (crlf
        ++ (bytes "Content-Length: 2"
            ++ (crlf ++ (bytes "Connection: close" ++ (crlf ++ (crlf ++ bytes "OK"))))))

module _ (print_average : Option (ℕ × ℕ) → Bytes) where
  unfoldable pub route_text : Bytes → RouteSnapshot → Bytes
  route_text name s =
      key name
      ++ (bytes "{"
          ++ (count (bytes "requests") s.stats.total_requests
              ++ (bytes ","
                  ++ (count (bytes "success") s.stats.success_count
                      ++ (bytes ","
                          ++ (count (bytes "errors") s.stats.error_count
                              ++ (bytes ","
                                  ++ (key (bytes "avg_ms")
                                      ++ (print_average s.avg_latency_ms ++ bytes "}")))))))))

  -- The routes, with a comma before each but the first.
  unfoldable pub routes_text : Bool → List (Bytes × RouteSnapshot) → Bytes
  unfolding route_text
  routes_text first [] = []
  routes_text first ((name, s) ∷ m) =
      (if first then [] else bytes ",") ++ (route_text name s ++ routes_text false m)

  unfoldable pub all_routes : List (Bytes × RouteSnapshot) → Bytes
  unfolding routes_text
  all_routes m =
      if is_empty m
      then []
      else bytes "," ++ (key (bytes "routes") ++ (bytes "{" ++ (routes_text true m ++ bytes "}")))

  unfoldable pub totals_text : Snapshot → Bytes
  totals_text s =
      count (bytes "total_requests") s.total_requests
      ++ (bytes ","
          ++ (count (bytes "total_success") s.total_success
              ++ (bytes ","
                  ++ (count (bytes "total_errors") s.total_errors
                      ++ (bytes ","
                          ++ (key (bytes "avg_latency_ms")
                              ++ (print_average s.avg_latency_ms
                                  ++ (bytes ","
                                      ++ (count (bytes "max_latency_ms") s.max_latency_ms
                                          ++ (bytes ","
                                              ++ (count (bytes "in_flight") s.in_flight
                                                  ++ (bytes ","
                                                      ++ (count (bytes "upstream_errors")
                                                            s.upstream_errors
                                                          ++ (bytes ","
                                                            ++ (count
                                                            (bytes "circuit_breaker_trips")
                                                            s.circuit_breaker_trips
                                                            ++ (bytes ","
                                                            ++ (count (bytes "rate_limited")
                                                            s.rate_limited)))))))))))))))))

  unfoldable pub stats_response : GatewayStats → Bytes
  unfolding totals_text all_routes
  stats_response s =
      bytes "HTTP/1.1 200 OK"
      ++ (crlf
          ++ (bytes "Content-Type: application/json"
              ++ (crlf
                  ++ (bytes "Connection: close"
                      ++ (crlf
                          ++ (crlf
                              ++ (bytes "{"
                                  ++ (totals_text (global_snapshot s)
                                      ++ (all_routes (route_snapshot s) ++ bytes "}")))))))))

  unfoldable pub handle_internal_endpoint : Bytes → GatewayStats → Option Bytes
  unfolding stats_response
  handle_internal_endpoint path s =
      if text_eq path (bytes "/stats") || text_eq path (bytes "/stats/")
      then some (stats_response s)
      else if text_eq path (bytes "/health") || text_eq path (bytes "/health/")
      then some health_response
      else none
