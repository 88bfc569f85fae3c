-- ===== src/Core/Loader/Tests.antt =====
-- Runs of the configuration loader.
use api_gateway.Core.Loader.Values.{
  to_int, skip_value, skip_container, skip_case, read_string, read_int, is_number, int_or,
}
use api_gateway.Http.Text.{take_while, strtol, is_space, is_digit, drop_while, digits_value}
use api_gateway.Core.Loader.Hanging.{is_unexpected, load_json_hangs}
use api_gateway.Prelude.{
  loop, refl, ◌++◌, ◌≡◌, text_eq, loop, while_loop, ◌∷◌, ◌==◌, if◌then◌else◌, ℕ, [], Bytes, bytes,
  Outcome, returned, hanging, map,
}
use api_gateway.Prelude.Int.{pos}
use api_gateway.Core.Config.{initial_config, Route, GatewayConfig}
use api_gateway.Core.Loader.Lexer.{
  unescaped, skip_comment, past_comma, lex_string, is_string, is_object_start, is_number_part,
  is_array_start, is_alpha, advance_past_comma, run_token, token, lex_word, lex_char, lex, is_white,
  white_round, skip_whitespace, advance, advance_twice, end_,
}
use api_gateway.Core.Loader.Parsing.{
  routes_value, route_value, route_round, route_field, past_object_end, next_key, known_error,
  is_usable, config_result, backends_value, backend_value, backend_round, backend_field,
  after_route, add_route, add_backend, skipping, config_value, number_member, config_field,
  config_fields, parse_config, Start, load_json,
}

abbrev start : Start
start = record { fuel = 40; type = end_; port = pos 0 }

-- Single quotes stand for the quotes of JSON.
abbrev quoted : ℕ → ℕ
quoted c = if c == b'\'' then 34 else c

abbrev json : Bytes → Bytes
json s = map quoted s

abbrev single : Bytes
single = json (
    bytes
      "{'routes':[{'prefix':'/a','backends':[{'host':'h','port':1}]},{'prefix':'/b','backends':[{'host':'h','port':2}]}],'max_connections':7}")

abbrev double : Bytes
double = json (
    bytes
      "{'routes':[{'prefix':'/a','backends':[{'host':'h','port':1},{'host':'i','port':3}]},{'prefix':'/b','backends':[{'host':'h','port':2}]}],'max_connections':7}")

abbrev config_of : Outcome GatewayConfig → GatewayConfig
config_of (returned c) = c
config_of _ = initial_config

abbrev one_backend : Route
one_backend = record {
  prefix = bytes "/a";
  backends = record { host = bytes "h"; port = pos 1 } ∷ [];
}

abbrev other_backend : Route
other_backend = record {
  prefix = bytes "/b";
  backends = record { host = bytes "h"; port = pos 2 } ∷ [];
}

single_is_read : (config_of (load_json start single)).routes ≡ one_backend ∷ other_backend ∷ []
unfolding load_json parse_config config_fields while_loop config_field advance_twice advance
    skip_whitespace white_round loop lex lex_char lex_word token run_token text_eq number_member
    config_value skipping skip_value skip_case skip_container routes_value route_round route_field
    route_value backends_value backend_round backend_field backend_value read_string read_int
    next_key advance_past_comma past_comma after_route past_object_end add_route add_backend
    is_usable is_string is_object_start is_array_start is_number lex_string unescaped is_white
    skip_comment take_while drop_while strtol int_or to_int is_digit is_alpha is_number_part
    known_error config_result digits_value is_space
single_is_read = refl

-- A second backend is lost, and with it whatever follows.
double_is_cut : (config_of (load_json start double)).routes ≡ one_backend ∷ []
unfolding load_json parse_config config_fields while_loop config_field advance_twice advance
    skip_whitespace white_round loop lex lex_char lex_word token run_token text_eq number_member
    config_value skipping skip_value skip_case skip_container routes_value route_round route_field
    route_value backends_value backend_round backend_field backend_value read_string read_int
    next_key advance_past_comma past_comma after_route past_object_end add_route add_backend
    is_usable is_string is_object_start is_array_start is_number lex_string unescaped is_white
    skip_comment take_while drop_while strtol int_or to_int is_digit is_alpha is_number_part
    known_error config_result digits_value is_space
double_is_cut = refl

load_json_hangs_example :
    load_json start (b'{' ∷ 34 ∷ bytes "a" ++ 34 ∷ b'=' ∷ bytes "1}") ≡ hanging
unfolding is_unexpected is_white is_digit
load_json_hangs_example =
    load_json_hangs start (bytes "a") (bytes "1}") b'=' (refl, tt) (λ e. cc e) refl
