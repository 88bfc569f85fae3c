-- ===== src/Startup.antt =====
-- The command line, src/main.cpp.
mod Tests
use mathlib.Core.Option
use api_gateway.Prelude.Options.{◌>>=◌}
use api_gateway.Prelude.{
  zero, suc, ltb, ◌&&◌, ◌==◌, drop, false, ◌||◌, bytes, true, Bool, Option, if◌then◌else◌, Bytes,
  List, starts_with, ℕ, ◌∷◌, [], none, some,
}
use api_gateway.Prelude.Int.{ℤ, pos, negsuc}
use api_gateway.Http.Text.{ascii_to_lower, strtol}
use api_gateway.Logger.{LogLevel, trace, debug, info, warn, error, fatal}
use api_gateway.Core.Config.{GatewayConfig}

-- `strcasecmp(a, b) == 0`
unfoldable pub case_eq : Bytes → Bytes → Bool
unfolding ascii_to_lower
case_eq [] [] = true
case_eq [] (d ∷ ds) = false
case_eq (c ∷ cs) [] = false
case_eq (c ∷ cs) (d ∷ ds) = ascii_to_lower c == ascii_to_lower d && case_eq cs ds

unfoldable pub parse_log_level : Bytes → LogLevel
unfolding case_eq
parse_log_level s =
    if case_eq s (bytes "trace")
    then trace
    else if case_eq s (bytes "debug")
    then debug
    else if case_eq s (bytes "info")
    then info
    else if case_eq s (bytes "warn") || case_eq s (bytes "warning")
    then warn
    else if case_eq s (bytes "error")
    then error
    else if case_eq s (bytes "fatal")
    then fatal
    else info

-- What `config_path` points to: the literal, or a text that has been destroyed with its argument.
pub data ConfigPath : Type 0 where
  literal : ConfigPath
  destroyed : ConfigPath

pub record Settings : Type 0 where
  pub config_path : ConfigPath
  pub log_level : LogLevel

unfoldable pub read_argument : Bytes → Settings → Settings
unfolding parse_log_level starts_with
read_argument arg s =
    if starts_with (bytes "--config=") arg
    then record s { config_path = destroyed }
    else if starts_with (bytes "--log-level=") arg
    then record s { log_level = parse_log_level (drop 12 arg) }
    else s

unfoldable pub read_arguments : List Bytes → Settings → Settings
unfolding read_argument
read_arguments [] s = s
read_arguments (arg ∷ args) s = read_arguments args (read_argument arg s)

unfoldable pub int_in_range : Bool → ℕ → Option ℤ
int_in_range false n = if ltb n 2147483648 then some (pos n) else none
int_in_range true zero = some (pos 0)
int_in_range true (suc n) = if ltb n 2147483648 then some (negsuc n) else none

-- `std::stoi`: none if it throws.
unfoldable pub stoi : Bytes → Option ℤ
unfolding strtol int_in_range
stoi s = elim (strtol s) [ none ↦ none | some n ↦ int_in_range n.negative n.magnitude ]

-- An argument that overrides the configuration; none if the program ends with an exception.
unfoldable pub override : Bytes → GatewayConfig → Option GatewayConfig
unfolding stoi starts_with
override arg cfg =
    if starts_with (bytes "--port=") arg
    then Option.map (λ n. record cfg { listen_port = n }) (stoi (drop 7 arg))
    else if starts_with (bytes "--threads=") arg
    then Option.map (λ n. record cfg { thread_count = n }) (stoi (drop 10 arg))
    else if starts_with (bytes "--timeout=") arg
    then Option.map (λ n. record cfg { backend_timeout_ms = n }) (stoi (drop 10 arg))
    else some cfg

unfoldable pub override_all : List Bytes → GatewayConfig → Option GatewayConfig
unfolding override
override_all [] cfg = some cfg
override_all (arg ∷ args) cfg = override arg cfg >>= override_all args
