-- ===== src/Core/Loader/Parsing.antt =====
-- `parse_config` and `load_json` of src/core/config_loader.cpp. Each of its loops is on the same
-- fuel; a message is what `g_last_error` holds after a failure.
use api_gateway.Prelude.{
  none, Option, some, Outcome, returned, and_then, ℕ, Bool, true, false, not, ◌&&◌, List, [], ◌∷◌,
  ◌++◌, Bytes, bytes, is_empty, text_eq, if◌then◌else◌, failed, while_loop,
}
use api_gateway.Prelude.Int.{ℤ, pos, is_positive}
use api_gateway.Core.Config.{Backend, Route, GatewayConfig, initial_config}
use api_gateway.Core.Loader.Lexer.{
  object_end, TokenType, JsonParser, json_parser, advance, advance_twice, is_string,
  is_object_start, is_array_start, past_comma, advance_past_comma,
}
use api_gateway.Core.Loader.Values.{skip_value, read_string, read_int}

abbrev pub at_string {ℓ} : {A : Type ℓ} → JsonParser × A → Bool
at_string s = is_string s.0.current_type

abbrev pub at_object {ℓ} : {A : Type ℓ} → JsonParser × A → Bool
at_object s = is_object_start s.0.current_type

-- The next key of an object, and what has been built so far.
unfoldable pub next_key {ℓ} : {A : Type ℓ} → JsonParser × A → Outcome (JsonParser × A)
unfolding advance_past_comma
next_key (p, a) = and_then (advance_past_comma p) (λ q. returned (q, a))

unfoldable pub skipping {ℓ} : {A : Type ℓ} → ℕ → JsonParser → A → Outcome (JsonParser × A)
unfolding skip_value
skipping fuel p a = and_then (skip_value fuel p) (λ q. returned (q, a))

unfoldable pub backend_value : ℕ → Bytes → JsonParser → Backend → Outcome (JsonParser × Backend)
unfolding skipping read_string read_int text_eq
backend_value fuel key p b = elim (text_eq key (bytes "host")) [
  | true ↦ returned (p, record b { host = read_string p })
  | false ↦ elim (text_eq key (bytes "port")) [
    | true ↦ returned (p, record b { port = read_int (pos 0) p })
    | false ↦ skipping fuel p b
  ]
]

-- A key, its value, and the way to the next key.
unfoldable pub backend_field : ℕ → JsonParser × Backend → Outcome (JsonParser × Backend)
unfolding advance_twice backend_value next_key
backend_field fuel (p, b) =
    and_then (advance_twice p) (λ q. and_then (backend_value fuel p.current_text q b) next_key)

unfoldable pub is_usable : Backend → Bool
is_usable b = not (is_empty b.host) && is_positive b.port

unfoldable pub add_backend : Backend → List Backend → List Backend
unfolding is_usable
add_backend b bs = if is_usable b then bs ++ b ∷ [] else bs

-- The fuel of every loop, and what the members without an initialiser hold: the type of the first
-- token and the port of a new `Backend`.
pub record Start : Type 0 where
  pub fuel : ℕ
  pub type : TokenType
  pub port : ℤ

-- One round of the loop over the backends.
unfoldable pub backend_round :
    Start → JsonParser × List Backend → Outcome (JsonParser × List Backend)
unfolding advance while_loop backend_field add_backend past_comma is_string
backend_round start (p, bs) = and_then (advance p) (λ q.
    and_then
      (while_loop start.fuel at_string (backend_field start.fuel)
        (q, record { host = []; port = start.port }))
      (λ s. and_then (past_comma s.0.current_type s.0) (λ r. returned (r, add_backend s.1 bs))))

unfoldable pub backends_value : Start → JsonParser → Route → Outcome (JsonParser × Route)
unfolding is_array_start advance while_loop backend_round is_object_start
backends_value start p route = elim (is_array_start p.current_type) [
  | false ↦ failed (bytes "Expected array for 'backends'")
  | true ↦ and_then (advance p) (λ q.
      and_then (while_loop start.fuel at_object (backend_round start) (q, route.backends))
        (λ s. returned (s.0, record route { backends = s.1 })))
]

unfoldable pub route_value : Start → Bytes → JsonParser → Route → Outcome (JsonParser × Route)
unfolding skipping backends_value read_string text_eq
route_value start key p route = elim (text_eq key (bytes "prefix")) [
  | true ↦ returned (p, record route { prefix = read_string p })
  | false ↦ elim (text_eq key (bytes "backends")) [
    | true ↦ backends_value start p route
    | false ↦ skipping start.fuel p route
  ]
]

unfoldable pub route_field : Start → JsonParser × Route → Outcome (JsonParser × Route)
unfolding advance_twice route_value next_key
route_field start (p, route) =
    and_then (advance_twice p) (λ q. and_then (route_value start p.current_text q route) next_key)

unfoldable pub add_route : Route → List Route → List Route
add_route r rs = if not (is_empty r.prefix) && not (is_empty r.backends) then rs ++ r ∷ [] else rs

unfoldable pub past_object_end : TokenType → JsonParser → Outcome JsonParser
unfolding advance
past_object_end object_end p = advance p
past_object_end _ p = returned p

-- Behind a route: over its closing brace, if it stands here, and over a comma.
unfoldable pub after_route : JsonParser → Outcome JsonParser
unfolding advance past_object_end past_comma
after_route p =
    and_then (advance p)
      (λ q. and_then (past_object_end q.current_type q) (λ r. past_comma r.current_type r))

unfoldable pub route_round : Start → JsonParser × List Route → Outcome (JsonParser × List Route)
unfolding advance while_loop route_field add_route after_route is_string
route_round start (p, rs) = and_then (advance p) (λ q.
    and_then
      (while_loop start.fuel at_string (route_field start)
        (q, record { prefix = []; backends = [] }))
      (λ s. and_then (after_route s.0) (λ r. returned (r, add_route s.1 rs))))

unfoldable pub routes_value :
    Start → JsonParser → GatewayConfig → Outcome (JsonParser × GatewayConfig)
unfolding is_array_start advance while_loop route_round is_object_start
routes_value start p cfg = elim (is_array_start p.current_type) [
  | false ↦ failed (bytes "Expected array for 'routes'")
  | true ↦ and_then (advance p) (λ q.
      and_then (while_loop start.fuel at_object (route_round start) (q, cfg.routes))
        (λ s. returned (s.0, record cfg { routes = s.1 })))
]

-- The keys with a number, and the member that each one sets.
unfoldable pub number_member : Bytes → GatewayConfig → Option (ℤ × (ℤ → GatewayConfig))
unfolding text_eq
number_member key cfg =
    if text_eq key (bytes "listen_port")
    then some (cfg.listen_port, λ n. record cfg { listen_port = n })
    else if text_eq key (bytes "keep_alive_timeout_sec")
    then some (cfg.keep_alive_timeout_sec, λ n. record cfg { keep_alive_timeout_sec = n })
    else if text_eq key (bytes "thread_count")
    then some (cfg.thread_count, λ n. record cfg { thread_count = n })
    else if text_eq key (bytes "backend_timeout_ms")
    then some (cfg.backend_timeout_ms, λ n. record cfg { backend_timeout_ms = n })
    else if text_eq key (bytes "max_request_size")
    then some (cfg.max_request_size, λ n. record cfg { max_request_size = n })
    else if text_eq key (bytes "max_epoll_events")
    then some (cfg.max_epoll_events, λ n. record cfg { max_epoll_events = n })
    else if text_eq key (bytes "idle_cleanup_interval_sec")
    then some (cfg.idle_cleanup_interval_sec, λ n. record cfg { idle_cleanup_interval_sec = n })
    else if text_eq key (bytes "pool_max_idle_per_host")
    then some (cfg.pool_max_idle_per_host, λ n. record cfg { pool_max_idle_per_host = n })
    else if text_eq key (bytes "pool_idle_timeout_sec")
    then some (cfg.pool_idle_timeout_sec, λ n. record cfg { pool_idle_timeout_sec = n })
    else if text_eq key (bytes "max_connections")
    then some (cfg.max_connections, λ n. record cfg { max_connections = n })
    else if text_eq key (bytes "max_queue_size")
    then some (cfg.max_queue_size, λ n. record cfg { max_queue_size = n })
    else if text_eq key (bytes "max_deferred_per_round")
    then some (cfg.max_deferred_per_round, λ n. record cfg { max_deferred_per_round = n })
    else none

unfoldable pub config_value :
    Start → Bytes → JsonParser → GatewayConfig → Outcome (JsonParser × GatewayConfig)
unfolding number_member read_int routes_value skipping text_eq
config_value start key p cfg = elim (number_member key cfg) [
  | some (old, set) ↦ returned (p, set (read_int old p))
  | none ↦ elim (text_eq key (bytes "routes")) [
    | true ↦ routes_value start p cfg
    | false ↦ skipping start.fuel p cfg
  ]
]

-- A key, its value, and the way to the next key; the source then leaves the loop at a token that
-- is neither a string nor a closing brace, where its test would leave it too.
unfoldable pub config_field :
    Start → JsonParser × GatewayConfig → Outcome (JsonParser × GatewayConfig)
unfolding advance_twice config_value next_key
config_field start (p, cfg) =
    and_then (advance_twice p) (λ q. and_then (config_value start p.current_text q cfg) next_key)

unfoldable pub config_result : JsonParser × GatewayConfig → Outcome GatewayConfig
config_result (p, cfg) = if p.error then failed p.error_msg else returned cfg

-- Behind the opening brace.
unfoldable pub config_fields : Start → JsonParser → Outcome GatewayConfig
unfolding advance while_loop config_field config_result is_string
config_fields start p = and_then (advance p) (λ q.
    and_then (while_loop start.fuel at_string (config_field start) (q, initial_config))
      config_result)

unfoldable pub parse_config : Start → Bytes → Outcome GatewayConfig
unfolding advance config_fields is_object_start
parse_config start json = and_then (advance (json_parser start.type json)) (λ p.
    elim (is_object_start p.current_type) [
      | false ↦ failed (bytes "Expected root object '{'")
      | true ↦ config_fields start p
    ])

unfoldable pub known_error : Outcome GatewayConfig → Outcome GatewayConfig
known_error (failed message) =
    if is_empty message then failed (bytes "Unknown parse error") else failed message
known_error o = o

unfoldable pub load_json : Start → Bytes → Outcome GatewayConfig
unfolding parse_config known_error
load_json start json = known_error (parse_config start json)
