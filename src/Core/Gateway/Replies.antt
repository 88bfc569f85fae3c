-- ===== src/Core/Gateway/Replies.antt =====
-- The texts that the gateway sends.
use api_gateway.Http.Request.{request_keep_alive}
use api_gateway.Prelude.{◌&&◌, not}
use api_gateway.Core.Gateway.Splicing.{says_close, keeps_alive}
use api_gateway.Core.Gateway.Endpoints.{health_response, stats_response}
use api_gateway.Monitor.Stats.{GatewayStats}
use api_gateway.Prelude.{zero, suc}
use api_gateway.Prelude.{
  ◌+◌, ℕ, ◌≡◌, refl, Bool, true, false, Option, none, some, List, [], ◌∷◌, Bytes, is_empty,
  Bool-cases, Option-cases, inl, inr, find, double_crlf, take, if◌then◌else◌,
}
use api_gateway.Core.Gateway.{reply_to}
use api_gateway.Core.Gateway.Splicing.{
  add_close, add_extra, insert_at, close_line, has_conn, extra_lines, keeps_alive,
}
use api_gateway.Core.Gateway.Endpoints.{handle_internal_endpoint, stats_response}
use api_gateway.Http.Response.{print, printed_head, make_400, make_404}
use api_gateway.Filter.Chain.{Filter, FilterContext}

insert_at-is_empty : (n : ℕ) (t s : Bytes) → is_empty s ≡ false → is_empty (insert_at n t s) ≡ false
insert_at-is_empty zero [] s h = h
insert_at-is_empty zero (c ∷ t) s h = refl
insert_at-is_empty (suc n) t [] h = cc
insert_at-is_empty (suc n) t (c ∷ s) h = refl

add_close-is_empty : (s : Bytes) → is_empty s ≡ false → is_empty (add_close s).0 ≡ false
unfolding add_close
add_close-is_empty s h = elim (Option-cases (find double_crlf s)) [
  | inl q ↦ rw (q, add_close) h
  | inr (i, q) ↦ elim (Bool-cases (has_conn (take (i + 2) s))) [
    | inl named ↦ rw (q, add_close) (rw (named, add_close) h)
    | inr unnamed ↦
        rw (q, add_close) (rw (unnamed, add_close) (insert_at-is_empty i close_line s h))
  ]
]

add_extra-is_empty :
    (headers : List (Bytes × Bytes)) (r : Bytes × Option ℕ)
    → is_empty r.0 ≡ false
    → is_empty (add_extra headers r) ≡ false
unfolding add_extra
add_extra-is_empty headers (out, none) h = h
add_extra-is_empty headers (out, some i) h =
    insert_at-is_empty i (extra_lines (take i out) headers) out h

pub reply_to-is_empty :
    (filters : List Filter) (ctx : FilterContext) (raw_resp : Bytes)
    → is_empty raw_resp ≡ false
    → is_empty (reply_to filters ctx raw_resp).text ≡ false
unfolding reply_to
reply_to-is_empty filters ctx raw_resp h =
    add_extra-is_empty _ (add_close raw_resp) (add_close-is_empty raw_resp h)

either_text :
    (a b : Bool) (s t text : Bytes)
    → is_empty s ≡ false
    → is_empty t ≡ false
    → (if a then some s else if b then some t else none) ≡ some text
    → is_empty text ≡ false
either_text true b s t text h k e = cc
either_text false true s t text h k e = cc
either_text false false s t text h k e = cc

pub endpoint-is_empty :
    (print_average : Option (ℕ × ℕ) → Bytes) (path : Bytes) (stats : GatewayStats) (text : Bytes)
    → handle_internal_endpoint print_average path stats ≡ some text
    → is_empty text ≡ false
unfolding handle_internal_endpoint stats_response
endpoint-is_empty print_average path stats text e =
    either_text _ _ (stats_response print_average stats) health_response text refl refl e

pub make_404-is_empty : is_empty (print (make_404 false)) ≡ false
unfolding print printed_head
make_404-is_empty = refl

pub make_400-is_empty : is_empty (print (make_400 false)) ≡ false
unfolding print printed_head
make_400-is_empty = refl

pub reply_to-keep_alive :
    (filters : List Filter) (ctx : FilterContext) (raw_resp : Bytes)
    → let reply = reply_to filters ctx raw_resp in
      (reply.keep_alive && says_close reply.text) ≡ false
unfolding reply_to keeps_alive
reply_to-keep_alive filters ctx raw_resp =
    not_both (request_keep_alive ctx.req) (says_close (reply_to filters ctx raw_resp).text)
  where
    not_both : (a b : Bool) → ((a && not b) && b) ≡ false
    not_both true true = refl
    not_both true false = refl
    not_both false b = refl
