-- ===== src/Filter/Chain.antt =====
-- The filters of include/gateway/filter/filter.h, src/filter/request_id_filter.cpp and
-- logging_filter.cpp, and the two loops of `process_request` over them. The generated id and the
-- clocks are arguments. What the logging filter writes is left out.
use api_gateway.Prelude.{
  ℕ, Bool, true, false, Option, none, some, List, [], ◌∷◌, Bytes, bytes, if◌then◌else◌,
}
use api_gateway.Prelude.Map.{bytes_key, lookup}
use api_gateway.Http.Request.{HttpRequest}
use api_gateway.Http.Response.{HttpResponse, put_header}
use api_gateway.Filter.RateLimit.{RateLimitFilter, extract_client_ip}
use api_gateway.Filter.RateLimit

pub record FilterContext : Type 0 where
  pub req : HttpRequest
  pub resp : Option HttpResponse
  pub request_id : Bytes
  pub start_time : ℕ

pub data Filter : Type 0 where
  rate_limit : RateLimitFilter → Filter
  request_id : Filter
  logging : Filter

-- The times of the two clocks, and the next generated id.
pub record Moment : Type 0 where
  pub nanoseconds : ℕ
  pub seconds : ℕ
  pub generated : Bytes

-- The id of the request, or a generated one.
unfoldable pub id_of : Bytes → Option Bytes → Bytes
id_of generated none = generated
id_of generated (some v) = v

unfoldable pub on_request : Moment → Filter → FilterContext → (Filter × FilterContext) × Bool
unfolding id_of RateLimit.on_request
on_request t (rate_limit f) ctx =
    let (f', ok) = RateLimit.on_request extract_client_ip t.nanoseconds (some ctx.req) f in
    ((rate_limit f', ctx), ok)
on_request t request_id ctx = (
  (
    request_id,
    record ctx { request_id = id_of t.generated (lookup (bytes "x-request-id") ctx.req.headers) },
  ),
  true,
)
on_request t logging ctx = ((logging, record ctx { start_time = t.seconds }), true)

-- A response with the id of the request.
unfoldable pub add_id : Bytes → Option HttpResponse → Option HttpResponse
unfolding put_header
add_id id none = none
add_id id (some r) = some (record r { headers = put_header (bytes "X-Request-Id") id r.headers })

unfoldable pub on_response : Filter → FilterContext → FilterContext
unfolding add_id
on_response (rate_limit f) ctx = ctx
on_response request_id ctx = record ctx { resp = add_id ctx.request_id ctx.resp }
on_response logging ctx = ctx

-- The request phase: it ends at the first filter that refuses.
unfoldable pub request_phase :
    Moment → List Filter → FilterContext → (List Filter × FilterContext) × Bool
unfolding on_request
request_phase t [] ctx = (([], ctx), true)
request_phase t (f ∷ fs) ctx =
    let ((f', ctx'), ok) = on_request t f ctx in
    let ((fs', last), all) = request_phase t fs ctx' in
    if ok then ((f' ∷ fs', last), all) else ((f' ∷ fs, ctx'), false)

unfoldable pub response_phase : List Filter → FilterContext → FilterContext
unfolding on_response
response_phase [] ctx = ctx
response_phase (f ∷ fs) ctx = response_phase fs (on_response f ctx)
