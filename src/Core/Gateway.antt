-- ===== src/Core/Gateway.antt =====
-- The gateway: `process_request` and its parts, in src/core/gateway.cpp. What the clocks, the
-- random generators and the backends answer to one request is a record. Requests that run in
-- several threads are taken one after the other.
pub mod Splicing
pub mod Endpoints
pub mod Replies
pub mod Answering
pub mod Headers
pub mod Collecting
mod Distinct
mod Sorted
pub mod Accepting
mod Tests
use api_gateway.Prelude.{
  ℕ, ◌*◌, Bool, true, false, Option, none, some, List, [], ◌∷◌, ◌++◌, Bytes, bytes, crlf,
  if◌then◌else◌, is_empty,
}
use api_gateway.Prelude.Map.{bytes_key, lookup, insert}
use api_gateway.Prelude.Int.{ℤ}
use api_gateway.Core.Config.{Backend, Route}
use api_gateway.Core.Router.{first_match}
use api_gateway.Core.Gateway.Splicing.{
  add_close, status_of, add_extra, keeps_alive, is_upstream_success,
}
use api_gateway.Core.Gateway.Endpoints.{handle_internal_endpoint}
use api_gateway.Http.Request.{HttpRequest, empty_request}
use api_gateway.Http.Message.{parse_http_request}
use api_gateway.Http.Response.{HttpResponse, new_response, print, make_400, make_404}
use api_gateway.Filter.Chain.{Filter, FilterContext, Moment, request_phase, response_phase}
use api_gateway.Monitor.Stats.{
  GatewayStats, record_request, record_success, record_error, inc_upstream_errors, inc_rate_limited,
}
use api_gateway.Proxy.CircuitBreaker.{
  CircuitBreaker, circuit_breaker, allow_request, on_success, on_failure,
}
use api_gateway.Proxy.LoadBalancer.{LoadBalancer, make_key, select, on_connect, on_disconnect}
use api_gateway.Proxy.BackendPool.{BackendPool}
use api_gateway.Proxy.Forwarding.{Answers, forward}

-- `router_` is the list of the routes as the router has sorted it.
pub record Gateway : Type 0 where
  pub backend_timeout_ms : ℕ
  pub router : List Route
  pub proxy : Option BackendPool
  pub load_balancer : LoadBalancer
  pub circuit_breakers : List (Bytes × CircuitBreaker)
  pub filters : List Filter
  pub stats : GatewayStats

unfoldable pub add_filter : Filter → Gateway → Gateway
add_filter f g = record g { filters = g.filters ++ f ∷ [] }

pub record Circumstances : Type 0 where
  pub moment : Moment
  pub later : ℕ
  pub draw : ℕ
  pub answers : Answers
  pub elapsed : ℤ
  pub print_average : Option (ℕ × ℕ) → Bytes

-- `conn->send(data, keep_alive)`
pub record Reply : Type 0 where
  pub text : Bytes
  pub keep_alive : Bool

abbrev pub closing : Bytes → Reply
closing text = record { text = text; keep_alive = false }

abbrev pub resp503 : Bytes
resp503 =
    bytes "HTTP/1.1 503 Service Unavailable"
    ++ (crlf
        ++ (bytes "Content-Length: 19"
            ++ (crlf
                ++ (bytes "Connection: close" ++ (crlf ++ (crlf ++ bytes "Service Unavailable"))))))

unfoldable pub breaker_or_new : ℕ → Option CircuitBreaker → CircuitBreaker
breaker_or_new timeout none = circuit_breaker 5 (timeout * 2) 3
breaker_or_new timeout (some cb) = cb

unfoldable pub get_circuit_breaker : Backend → Gateway → CircuitBreaker
unfolding breaker_or_new
get_circuit_breaker target g =
    breaker_or_new g.backend_timeout_ms (lookup (make_key target) g.circuit_breakers)

unfoldable pub put_circuit_breaker : Backend → CircuitBreaker → Gateway → Gateway
put_circuit_breaker target cb g = record g {
  circuit_breakers = insert (make_key target) cb g.circuit_breakers;
}

abbrev added_headers : Option HttpResponse → List (Bytes × Bytes)
added_headers none = []
added_headers (some r) = r.headers

-- The text for the client, and whether its connection is kept.
unfoldable pub reply_to : List Filter → FilterContext → Bytes → Reply
unfolding add_close add_extra keeps_alive status_of
reply_to filters ctx raw_resp =
    let (out, hdr_end) = add_close raw_resp in
    let tmp_resp : HttpResponse = record new_response {
      status_code = status_of out new_response.status_code;
    } in
    let last = response_phase filters (record ctx { resp = some tmp_resp }) in
    let text = add_extra (added_headers last.resp) (out, hdr_end) in
    record { text = text; keep_alive = keeps_alive ctx.req text }

-- The statistics and the breaker, with the backend's response.
unfoldable pub report : Circumstances → Bytes → Backend → Bytes → Gateway → Gateway
unfolding is_upstream_success put_circuit_breaker get_circuit_breaker
report c path target raw_resp g =
    let cb = get_circuit_breaker target g in
    let counted = record_request path c.elapsed g.stats in
    if is_upstream_success raw_resp
    then put_circuit_breaker target (on_success cb)
        (record g { stats = record_success path counted })
    else put_circuit_breaker target (on_failure c.later cb)
        (record g { stats = inc_upstream_errors (record_error path counted) })

-- After `forward`.
unfoldable pub after_forward :
    Circumstances
    → FilterContext
    → Backend
    → Option (Option BackendPool × Bytes)
    → Gateway
    → Option (Gateway × Reply)
unfolding report reply_to
after_forward c ctx target none g = none
after_forward c ctx target (some (proxy', raw_resp)) g = some (
  report c ctx.req.path target raw_resp
      (record g { proxy = proxy'; load_balancer = on_disconnect target g.load_balancer }),
  reply_to g.filters ctx raw_resp,
)

-- After the breaker has been asked.
unfoldable pub guarded :
    Circumstances
    → Bytes
    → FilterContext
    → Backend
    → CircuitBreaker × Bool
    → Gateway
    → Option (Gateway × Reply)
unfolding after_forward put_circuit_breaker
guarded c raw ctx target (cb, false) g = some (put_circuit_breaker target cb g, closing resp503)
guarded c raw ctx target (cb, true) g =
    after_forward c ctx target (forward c.answers target raw g.proxy) (
      put_circuit_breaker target cb
        (record g { load_balancer = on_connect target g.load_balancer }))

-- After a backend has been selected.
unfoldable pub selected :
    Circumstances
    → Bytes
    → FilterContext
    → LoadBalancer × Backend
    → Gateway
    → Option (Gateway × Reply)
unfolding guarded get_circuit_breaker
selected c raw ctx (lb, target) g =
    guarded c raw ctx target (allow_request c.moment.nanoseconds (get_circuit_breaker target g))
      (record g { load_balancer = lb })

unfoldable pub routed : Circumstances → Bytes → FilterContext → Gateway → Option (Gateway × Reply)
unfolding selected
routed c raw ctx g = elim (first_match ctx.req.path g.router) [
  | none ↦ some (g, closing (print (make_404 false)))
  | some backends ↦ selected c raw ctx (select c.draw backends g.load_balancer) g
]

-- After the request phase of the filters.
unfoldable pub filtered :
    Circumstances
    → Bytes
    → (List Filter × FilterContext) × Bool
    → Gateway
    → Option (Gateway × Reply)
unfolding routed
filtered c raw ((filters', ctx), false) g = some (
  record g { filters = filters'; stats = inc_rate_limited g.stats },
  closing (print (make_400 false)),
)
filtered c raw ((filters', ctx), true) g = routed c raw ctx (record g { filters = filters' })

abbrev pub new_context : HttpRequest → FilterContext
new_context req = record { req = req; resp = none; request_id = []; start_time = 0 }

unfoldable pub serve : Circumstances → Bytes → HttpRequest → Gateway → Option (Gateway × Reply)
unfolding filtered
serve c raw req g = elim (handle_internal_endpoint c.print_average req.path g.stats) [
  | some internal_resp ↦ some (g, closing internal_resp)
  | none ↦ filtered c raw (request_phase c.moment g.filters (new_context req)) g
]

unfoldable pub process_request : Circumstances → Bytes → Gateway → Option (Gateway × Reply)
unfolding serve
process_request c raw g =
    let (req, ok) = parse_http_request raw empty_request in
    if ok then serve c raw req g else some (g, closing (print (make_400 false)))
