-- ===== src/Core/Loader/Values.antt =====
-- The values of the configuration: `skip_value`, `find_key`, `read_string`, `read_int` and the
-- container stack of src/core/config_loader.cpp. Loops are on fuel.
use api_gateway.Prelude.{
  Outcome, returned, and_then, ℕ, ◌+◌, ◌-◌, ◌%◌, ◌^◌, Bool, true, false, not, ◌&&◌, Option, none,
  some, List, [], ◌∷◌, Bytes, text_eq, ltb, if◌then◌else◌, while_loop,
}
use api_gateway.Prelude.Int.{ℤ, pos, negsuc}
use api_gateway.Http.Text.{Number, strtol}
use api_gateway.Core.Loader.Lexer.{
  object_start, object_end, array_start, array_end, number, end_, TokenType, JsonParser, advance,
  is_string, is_object_start, is_array_start, advance_past_comma,
}

-- The depth after a token of an object's or an array's own kind; the end of the text ends the loop.
unfoldable pub object_depth : TokenType → ℕ → ℕ
object_depth object_start depth = depth + 1
object_depth object_end depth = depth - 1
object_depth end_ depth = 0
object_depth _ depth = depth

unfoldable pub array_depth : TokenType → ℕ → ℕ
array_depth array_start depth = depth + 1
array_depth array_end depth = depth - 1
array_depth end_ depth = 0
array_depth _ depth = depth

unfoldable pub skip_step : (TokenType → ℕ → ℕ) → ℕ × JsonParser → Outcome (ℕ × JsonParser)
unfolding advance
skip_step new_depth (depth, p) =
    and_then (advance p) (λ q. returned (new_depth q.current_type depth, q))

unfoldable pub skip_container : ℕ → (TokenType → ℕ → ℕ) → JsonParser → Outcome JsonParser
unfolding while_loop skip_step
skip_container fuel new_depth p =
    and_then (while_loop fuel (λ s. ltb 0 s.0) (skip_step new_depth) (1, p)) (λ s. returned s.1)

unfoldable pub skip_case : TokenType → ℕ → JsonParser → Outcome JsonParser
unfolding skip_container object_depth array_depth
skip_case object_start fuel p = skip_container fuel object_depth p
skip_case array_start fuel p = skip_container fuel array_depth p
skip_case _ fuel p = returned p

unfoldable pub skip_value : ℕ → JsonParser → Outcome JsonParser
unfolding skip_case
skip_value fuel p = skip_case p.current_type fuel p

-- To an object's or array's start, in one step at most.
unfoldable pub to_start : (TokenType → Bool) → JsonParser → Outcome JsonParser
unfolding advance
to_start is_start p = elim (is_start p.current_type) [ true ↦ returned p | false ↦ advance p ]

-- The loop of `find_key`: whether the key has been found.
unfoldable pub key_step : ℕ → Bytes → Bool × JsonParser → Outcome (Bool × JsonParser)
unfolding advance skip_value advance_past_comma text_eq
key_step fuel key (found, p) = and_then (advance p) (λ q. elim (text_eq p.current_text key) [
  | true ↦ and_then (advance q) (λ r. returned (true, r))
  | false ↦
      and_then (skip_value fuel q) (λ r. and_then (advance_past_comma r) (λ t. returned (false, t)))
])

unfoldable pub find_key : ℕ → Bytes → JsonParser → Outcome (Bool × JsonParser)
unfolding to_start key_step while_loop is_object_start is_string
find_key fuel key p = and_then (to_start is_object_start p) (λ q.
    elim (is_object_start q.current_type) [
      | false ↦ returned (false, q)
      | true ↦ and_then (advance q) (λ r.
          while_loop fuel (λ s. not s.0 && is_string s.1.current_type) (key_step fuel key)
            (false, r))
    ])

unfoldable pub read_string : JsonParser → Bytes
unfolding is_string
read_string p = if is_string p.current_type then p.current_text else []

-- `static_cast<int>` of a `long` in range.
unfoldable pub to_int : Bool → ℕ → ℤ
to_int negative magnitude =
    let u = (if negative then 2 ^ 64 - magnitude else magnitude) % 2 ^ 32 in
    if ltb u (2 ^ 31) then pos u else negsuc (2 ^ 32 - 1 - u)

-- `strtol` with `errno`: what is out of range of a `long` gives the default, no digits give 0.
unfoldable pub int_or : ℤ → Option Number → ℤ
unfolding to_int
int_or default_val none = pos 0
int_or default_val (some n) =
    if ltb (if n.negative then 2 ^ 63 else 2 ^ 63 - 1) n.magnitude
    then default_val
    else to_int n.negative n.magnitude

unfoldable pub is_number : TokenType → Bool
is_number number = true
is_number _ = false

unfoldable pub read_int : ℤ → JsonParser → ℤ
unfolding strtol int_or is_number
read_int default_val p =
    if is_number p.current_type then int_or default_val (strtol p.current_text) else default_val

-- `enter_object` and `enter_array`: whether the container is there.
unfoldable pub enter : TokenType → (TokenType → Bool) → JsonParser → Outcome (Bool × JsonParser)
unfolding to_start advance
enter type is_start p = and_then (to_start is_start p) (λ q. elim (is_start q.current_type) [
  | false ↦ returned (false, q)
  | true ↦
      and_then (advance (record q { container_stack = type ∷ q.container_stack }))
        (λ r. returned (true, r))
])

unfoldable pub enter_object : JsonParser → Outcome (Bool × JsonParser)
unfolding enter is_object_start
enter_object p = enter object_start is_object_start p

unfoldable pub enter_array : JsonParser → Outcome (Bool × JsonParser)
unfolding enter is_array_start
enter_array p = enter array_start is_array_start p

unfoldable pub pop : List TokenType → List TokenType
pop [] = []
pop (t ∷ ts) = ts

unfoldable pub leave_container : JsonParser → JsonParser
unfolding pop
leave_container p = record p { container_stack = pop p.container_stack }
