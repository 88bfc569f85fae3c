-- ===== src/Core/Loader/Lexer.antt =====
-- The tokens of the configuration: `class JsonParser` of src/core/config_loader.cpp up to
-- `advance`. `rest` is `input_` from `pos_` on.
use api_gateway.Prelude.{
  suc, Outcome, returned, hanging, and_then, ℕ, Bool, true, false, Option, none, some, List, [],
  ◌∷◌, ◌++◌, ◌||◌, ◌&&◌, Bytes, bytes, leb, ◌==◌, if◌then◌else◌, length, Round, done, more, loop,
}
use api_gateway.Http.Text.{is_digit, take_while, drop_while}

pub data TokenType : Type 0 where
  object_start object_end array_start array_end string number boolean colon comma null end_ :
      TokenType

pub record JsonParser : Type 0 where
  pub rest : Bytes
  pub current_type : TokenType
  pub current_text : Bytes
  pub error : Bool
  pub error_msg : Bytes
  pub container_stack : List TokenType

-- The constructor leaves the type of the current token open.
abbrev pub json_parser : TokenType → Bytes → JsonParser
json_parser type input = record {
  rest = input;
  current_type = type;
  current_text = [];
  error = false;
  error_msg = [];
  container_stack = [];
}

unfoldable pub skip_line : Bytes → Bytes
skip_line [] = []
skip_line (c ∷ cs) = if c == 10 then c ∷ cs else skip_line cs

-- Behind the opening of a block comment. One that is not closed leaves its last character.
unfoldable pub skip_block : Bytes → Bytes
skip_block [] = []
skip_block (c ∷ []) = c ∷ []
skip_block (c ∷ d ∷ cs) = if c == b'*' && d == b'/' then cs else skip_block (d ∷ cs)

-- At a slash.
unfoldable pub skip_comment : Bytes → Bytes
skip_comment [] = []
skip_comment (c ∷ []) = c ∷ []
skip_comment (c ∷ d ∷ cs) =
    if d == b'/' then skip_line (c ∷ d ∷ cs) else if d == b'*' then skip_block cs else c ∷ d ∷ cs

unfoldable pub is_white : ℕ → Bool
is_white c = (c == 32 || c == 9) || (c == 10 || c == 13)

unfoldable pub white_round : Bytes → Round Bytes
unfolding is_white skip_comment
white_round [] = done []
white_round (c ∷ cs) =
    if is_white c
    then more cs
    else if c == b'/'
    then more (skip_comment (c ∷ cs))
    else done (c ∷ cs)

-- `none` where the loop does not end.
unfoldable pub skip_whitespace : Bytes → Option Bytes
unfolding white_round
skip_whitespace s = loop (suc (length s)) white_round s

unfoldable pub set_error : Bytes → JsonParser → JsonParser
set_error msg p = record p { error = true; error_msg = msg }

unfoldable pub unescaped : ℕ → ℕ
unescaped c = if c == b'n' then 10 else if c == b't' then 9 else if c == b'r' then 13 else c

-- The text up to the closing quote, and what follows it; the flag says that the last character
-- was a backslash.
unfoldable pub lex_string : Bool → Bytes → Bytes × Bytes
unfolding unescaped
lex_string escaped [] = ([], [])
lex_string true (c ∷ cs) = let r = lex_string false cs in (unescaped c ∷ r.0, r.1)
lex_string false (c ∷ cs) =
    let r = lex_string (c == b'\\') cs in
    if c == 34 then ([], cs) else if c == b'\\' then r else (c ∷ r.0, r.1)

unfoldable pub is_alpha : ℕ → Bool
is_alpha c = (leb b'a' c && leb c b'z') || (leb b'A' c && leb c b'Z')

unfoldable pub is_number_part : ℕ → Bool
unfolding is_digit
is_number_part c = is_digit c || c == b'.'

unfoldable pub token : TokenType → Bytes → Bytes → JsonParser → JsonParser
token type text rest p = record p { rest = rest; current_type = type; current_text = text }

-- A run of characters of one kind, with what stands before it.
unfoldable pub run_token : TokenType → (ℕ → Bool) → Bytes → Bytes → JsonParser → JsonParser
unfolding token take_while drop_while
run_token type is_part before s p =
    token type (before ++ take_while is_part s) (drop_while is_part s) p

unfoldable pub lex_word : ℕ → Bytes → JsonParser → JsonParser
unfolding run_token is_number_part is_alpha set_error is_digit
lex_word c cs p =
    if c == b'-'
    then run_token number is_number_part (c ∷ []) cs p
    else if is_digit c
    then run_token number is_number_part [] (c ∷ cs) p
    else if c == b't' || c == b'f'
    then run_token boolean is_alpha [] (c ∷ cs) p
    else if c == b'n'
    then run_token null is_alpha [] (c ∷ cs) p
    else set_error (bytes "Unexpected character: '" ++ (c ∷ bytes "'")) (record p { rest = c ∷ cs })

unfoldable pub lex_char : ℕ → Bytes → JsonParser → JsonParser
unfolding token lex_string lex_word
lex_char c cs p =
    if c == b'{'
    then token object_start (c ∷ []) cs p
    else if c == b'}'
    then token object_end (c ∷ []) cs p
    else if c == b'['
    then token array_start (c ∷ []) cs p
    else if c == b']'
    then token array_end (c ∷ []) cs p
    else if c == b':'
    then token colon (c ∷ []) cs p
    else if c == b','
    then token comma (c ∷ []) cs p
    else if c == 34
    then token string (lex_string false cs).0 (lex_string false cs).1 p
    else lex_word c cs p

unfoldable pub lex : Bytes → JsonParser → JsonParser
unfolding lex_char
lex [] p = token end_ [] [] p
lex (c ∷ cs) p = lex_char c cs p

-- It hangs where `skip_whitespace` does not end.
unfoldable pub advance : JsonParser → Outcome JsonParser
unfolding skip_whitespace lex
advance p = elim (skip_whitespace p.rest) [ none ↦ hanging | some s ↦ returned (lex s p) ]

-- Two calls of `advance`.
unfoldable pub advance_twice : JsonParser → Outcome JsonParser
unfolding advance
advance_twice p = and_then (advance p) advance

unfoldable pub is_string : TokenType → Bool
is_string string = true
is_string _ = false

unfoldable pub is_object_start : TokenType → Bool
is_object_start object_start = true
is_object_start _ = false

unfoldable pub is_array_start : TokenType → Bool
is_array_start array_start = true
is_array_start _ = false

-- Over a comma, if one stands here.
unfoldable pub past_comma : TokenType → JsonParser → Outcome JsonParser
past_comma comma p = advance p
past_comma _ p = returned p

-- `advance(); if (current_type() == Comma) advance();`
unfoldable pub advance_past_comma : JsonParser → Outcome JsonParser
unfolding advance past_comma
advance_past_comma p = and_then (advance p) (λ q. past_comma q.current_type q)
