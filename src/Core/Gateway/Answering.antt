-- ===== src/Core/Gateway/Answering.antt =====
-- Every request is after_forward, and leaves the counts of connections as they were.
use api_gateway.Prelude.{◌&&◌}
use api_gateway.Core.Gateway.Splicing.{says_close}
use api_gateway.Core.Gateway.Splicing.{is_upstream_success}
use api_gateway.Core.Gateway.{
  report, after_forward, guarded, selected, routed, filtered, serve, process_request,
  put_circuit_breaker, resp503,
}
use api_gateway.Prelude.{
  ◌≡◌, refl, ap, ◌∙◌, Bool, true, false, Option, some, List, Bytes, is_empty, Bool-cases,
  Option-cases, inl, inr, if◌then◌else◌,
}
use api_gateway.Core.Config.{Backend}
use api_gateway.Core.Router.{first_match}
use api_gateway.Core.Gateway.{
  Gateway, Circumstances, Reply, closing, resp503, put_circuit_breaker, reply_to, report,
  after_forward, guarded, selected, routed, filtered, new_context, serve, process_request,
}
use api_gateway.Core.Gateway.Splicing.{is_upstream_success}
use api_gateway.Core.Gateway.Endpoints.{handle_internal_endpoint}
use api_gateway.Http.Request.{HttpRequest, empty_request}
use api_gateway.Http.Message.{parse_http_request}
use api_gateway.Filter.Chain.{Filter, FilterContext, request_phase}
use api_gateway.Proxy.CircuitBreaker.{CircuitBreaker}
use api_gateway.Proxy.LoadBalancer.{
  LoadBalancer, round_robin, count_of, select, on_connect, on_disconnect,
}
use api_gateway.Proxy.LoadBalancer.Counts.{connect_disconnect-count, select-counts}
use api_gateway.Proxy.Forwarding.{forward}
use api_gateway.Proxy.Forwarding.Accounting.{until_timeout}
use api_gateway.Proxy.Forwarding.Answering.{active_in, forward-IsDone}
use api_gateway.Core.Gateway.Replies.{
  reply_to-is_empty, reply_to-keep_alive, endpoint-is_empty, make_404-is_empty, make_400-is_empty,
}

-- A reply that is not empty, from a gateway with the same counts.
abbrev IsServed : Gateway → Option (Gateway × Reply) → Type 0
IsServed g o =
    (r : Gateway × Reply) × ((o ≡ some r)
      × (((is_empty r.1.text ≡ false) × ((r.1.keep_alive && says_close r.1.text) ≡ false))
          × (((j : Bytes) → active_in j r.0.proxy ≡ active_in j g.proxy)
              × ((j : Bytes)
                  → count_of j r.0.load_balancer.conn_counts
                    ≡ count_of j g.load_balancer.conn_counts))))

at_once :
    (g g' : Gateway) (text : Bytes)
    → is_empty text ≡ false
    → g'.proxy ≡ g.proxy
    → g'.load_balancer.conn_counts ≡ g.load_balancer.conn_counts
    → IsServed g (some (g', closing text))
at_once g g' text h p q =
    ((g', closing text), (refl, ((h, refl), ((λ j. ap (active_in j) p), (λ j. ap (count_of j) q)))))

-- The same circumstances, with each poll of a backend's socket timing out in the end.
abbrev pub with_timeouts : Circumstances → Circumstances
with_timeouts c = record c { answers = until_timeout c.answers }

report-kept :
    (c : Circumstances) (path : Bytes) (target : Backend) (raw_resp : Bytes) (g : Gateway)
    → ((report c path target raw_resp g).proxy ≡ g.proxy)
      × ((report c path target raw_resp g).load_balancer ≡ g.load_balancer)
unfolding report put_circuit_breaker
report-kept c path target raw_resp g = elim (Bool-cases (is_upstream_success raw_resp)) [
  | inl good ↦ rw (good, report) (refl, refl)
  | inr bad ↦ rw (bad, report) (refl, refl)
]

-- `h` says where the gateway of the call comes from.
after_forward-IsServed :
    (c : Circumstances) (raw : Bytes) (ctx : FilterContext) (target : Backend) (g g' : Gateway)
    → g'.proxy ≡ g.proxy
    → ((j : Bytes)
        → count_of j (on_disconnect target g'.load_balancer).conn_counts
          ≡ count_of j g.load_balancer.conn_counts)
    → IsServed g (
        after_forward
          (with_timeouts c)
          ctx
          target
          (forward (until_timeout c.answers) target raw g'.proxy)
          g')
unfolding after_forward
after_forward-IsServed c raw ctx target g g' p q =
    let ((proxy', raw_resp), (e, (counts, there))) = forward-IsDone c.answers target raw g'.proxy in
    let done = record g' {
      proxy = proxy';
      load_balancer = on_disconnect target g'.load_balancer;
    } in
    let (same_proxy, same_balancer) =
      report-kept (with_timeouts c) ctx.req.path target raw_resp done in
    rw (e, after_forward)
      (
        (
          report (with_timeouts c) ctx.req.path target raw_resp done,
          reply_to g'.filters ctx raw_resp,
        ),
        (
          refl,
          (
            (
              reply_to-is_empty g'.filters ctx raw_resp there,
              reply_to-keep_alive g'.filters ctx raw_resp,
            ),
            (
              (λ j. ap (active_in j) same_proxy ∙ counts j ∙ ap (active_in j) p),
              (λ j. ap (λ lb. count_of j lb.conn_counts) same_balancer ∙ q j),
            ),
          ),
        ),
      )

guarded-IsServed :
    (c : Circumstances) (raw : Bytes) (ctx : FilterContext) (target : Backend)
    (r : CircuitBreaker × Bool) (g g' : Gateway)
    → g'.proxy ≡ g.proxy
    → g'.load_balancer.conn_counts ≡ g.load_balancer.conn_counts
    → IsServed g (guarded (with_timeouts c) raw ctx target r g')
unfolding guarded put_circuit_breaker
guarded-IsServed c raw ctx target (cb, false) g g' p q =
    at_once g (put_circuit_breaker target cb g') resp503 refl p q
guarded-IsServed c raw ctx target (cb, true) g g' p q =
    after_forward-IsServed c raw ctx target g
      (put_circuit_breaker target cb
        (record g' { load_balancer = on_connect target g'.load_balancer }))
      p (λ j. connect_disconnect-count j target g'.load_balancer ∙ ap (count_of j) q)

selected-IsServed :
    (c : Circumstances) (raw : Bytes) (ctx : FilterContext) (r : LoadBalancer × Backend)
    (g g' : Gateway)
    → g'.proxy ≡ g.proxy
    → r.0.conn_counts ≡ g.load_balancer.conn_counts
    → IsServed g (selected (with_timeouts c) raw ctx r g')
unfolding selected
selected-IsServed c raw ctx (lb, target) g g' p q =
    guarded-IsServed c raw ctx target _ g (record g' { load_balancer = lb }) p q

routed-IsServed :
    (c : Circumstances) (raw : Bytes) (ctx : FilterContext) (g g' : Gateway)
    → g'.proxy ≡ g.proxy
    → g'.load_balancer ≡ g.load_balancer
    → g.load_balancer.algo ≡ round_robin
    → IsServed g (routed (with_timeouts c) raw ctx g')
unfolding routed
routed-IsServed c raw ctx g g' p q a = elim (Option-cases (first_match ctx.req.path g'.router)) [
  | inl unmatched ↦
      rw (unmatched, routed) (at_once g g' _ make_404-is_empty p (ap (λ lb. lb.conn_counts) q))
  | inr (backends, matched) ↦
      rw (matched, routed)
        (selected-IsServed c raw ctx (select c.draw backends g'.load_balancer) g g' p (
          select-counts c.draw backends g'.load_balancer (ap (λ lb. lb.algo) q ∙ a)
          ∙ ap (λ lb. lb.conn_counts) q))
]

filtered-IsServed :
    (c : Circumstances) (raw : Bytes) (r : (List Filter × FilterContext) × Bool) (g : Gateway)
    → g.load_balancer.algo ≡ round_robin
    → IsServed g (filtered (with_timeouts c) raw r g)
unfolding filtered
filtered-IsServed c raw ((filters', ctx), false) g a = at_once g _ _ make_400-is_empty refl refl
filtered-IsServed c raw ((filters', ctx), true) g a =
    routed-IsServed c raw ctx g (record g { filters = filters' }) refl refl a

serve-IsServed :
    (c : Circumstances) (raw : Bytes) (req : HttpRequest) (g : Gateway)
    → g.load_balancer.algo ≡ round_robin
    → IsServed g (serve (with_timeouts c) raw req g)
unfolding serve
serve-IsServed c raw req g a =
    elim (Option-cases (handle_internal_endpoint c.print_average req.path g.stats)) [
      | inl other ↦
          rw (other, serve)
            (filtered-IsServed c raw (request_phase c.moment g.filters (new_context req)) g a)
      | inr (text, internal) ↦
          rw (internal, serve)
            (at_once g g text (endpoint-is_empty c.print_average req.path g.stats text internal)
              refl refl)
    ]

if-IsServed :
    (b : Bool) (g : Gateway) (o p : Option (Gateway × Reply))
    → IsServed g o
    → IsServed g p
    → IsServed g (if b then o else p)
if-IsServed true g o p h k = h
if-IsServed false g o p h k = k

-- Whatever the request and whatever the backend does, with round robin and polls that time out in
-- the end, `process_request` ends with a reply that is not empty and that is not kept alive when
-- its text says to close; the counts of active connections in the pool and in the load balancer
-- are what they were, for every key.
pub process_request-served :
    (c : Circumstances) (raw : Bytes) (g : Gateway)
    → g.load_balancer.algo ≡ round_robin
    → (r : Gateway × Reply) × ((process_request (with_timeouts c) raw g ≡ some r)
        × (((is_empty r.1.text ≡ false) × ((r.1.keep_alive && says_close r.1.text) ≡ false))
            × (((j : Bytes) → active_in j r.0.proxy ≡ active_in j g.proxy)
                × ((j : Bytes)
                    → count_of j r.0.load_balancer.conn_counts
                      ≡ count_of j g.load_balancer.conn_counts))))
unfolding process_request
process_request-served c raw g a =
    if-IsServed (parse_http_request raw empty_request).1 g _ _
      (serve-IsServed c raw (parse_http_request raw empty_request).0 g a)
      (at_once g g _ make_400-is_empty refl refl)
