-- ===== src/Core/Loader/Hanging.antt =====
-- Where the configuration loader does not return.
use api_gateway.Prelude.{
  zero, while_loop_stuck, suc, hanging, inr, while_loop, text_eq_iff, inl, Option-cases, ◌≢◌, ap,
  loop-done, ◌==◌, ℕ, ◌≡◌, refl, ◌∙◌, Bool, true, false, not, ◌&&◌, ◌||◌, some, [], ◌∷◌, ◌++◌,
  Bytes, bytes, All, returned, arith, length,
}
use api_gateway.Prelude.Int.{ℤ}
use api_gateway.Http.Text.{is_digit}
use api_gateway.Core.Config.{initial_config, GatewayConfig}
use api_gateway.Core.Loader.Lexer.{
  is_string, json_parser, string, past_comma, advance_past_comma, advance_twice, set_error,
  lex_word, lex_char, is_white, JsonParser, advance, lex, lex_string, skip_whitespace, white_round,
}
use api_gateway.Core.Loader.Values.{read_int, skip_value, skip_case, is_number}
use api_gateway.Core.Loader.Parsing.{
  config_fields, at_string, parse_config, load_json, Start, skipping, next_key, config_field,
  config_value, number_member,
}

abbrev is_one_of : ℕ → Bytes → Bool
is_one_of c [] = false
is_one_of c (d ∷ ds) = c == d || is_one_of c ds

-- No token, blank or comment starts with it.
unfoldable pub is_unexpected : ℕ → Bool
is_unexpected c =
    not (is_white c || is_digit c) && not (c == 34 || is_one_of c (bytes "/{}[]:,-tfn"))

-- A character of a text that stands for itself.
abbrev pub is_plain : ℕ → Bool
is_plain c = not (c == 34 || c == 92)

skip_whitespace-cons :
    (c : ℕ) (cs : Bytes)
    → is_white c ≡ false
    → (c == 47) ≡ false
    → skip_whitespace (c ∷ cs) ≡ some (c ∷ cs)
unfolding skip_whitespace white_round
skip_whitespace-cons c cs w s =
    loop-done white_round (length (c ∷ cs)) (c ∷ cs) (c ∷ cs) (rw (w, s) refl)

advance-lex :
    (p : JsonParser) (s : Bytes) → skip_whitespace p.rest ≡ some s → advance p ≡ returned (lex s p)
unfolding advance
advance-lex p s e = rw (e, advance) refl

advance-cons :
    (p : JsonParser) (c : ℕ) (cs : Bytes)
    → p.rest ≡ c ∷ cs
    → is_white c ≡ false
    → (c == 47) ≡ false
    → advance p ≡ returned (lex (c ∷ cs) p)
advance-cons p c cs e w s =
    advance-lex p (c ∷ cs) (ap skip_whitespace e ∙ skip_whitespace-cons c cs w s)

pub lex_string-plain :
    (key rest : Bytes)
    → All (λ c. is_plain c ≡ true) key
    → lex_string false (key ++ 34 ∷ rest) ≡ (key, rest)
unfolding lex_string
lex_string-plain [] rest h = refl
lex_string-plain (c ∷ cs) rest (h, t) = ground (arith, lex_string-plain cs rest t)

number_member_keeps :
    (key : Bytes) (cfg : GatewayConfig) (old : ℤ) (set : ℤ → GatewayConfig)
    → number_member key cfg ≡ some (old, set)
    → set old ≡ cfg
unfolding number_member
number_member_keeps key cfg old set e = ground arith

-- The parser that has met an unexpected character: the current token stays what it was.
abbrev refused : ℕ → Bytes → JsonParser → JsonParser
refused c cs p = record p {
  rest = c ∷ cs;
  error = true;
  error_msg = bytes "Unexpected character: '" ++ (c ∷ bytes "'");
}

lex_unexpected :
    (c : ℕ) (cs : Bytes) (p : JsonParser) → is_unexpected c ≡ true → lex (c ∷ cs) p ≡ refused c cs p
unfolding lex lex_char lex_word set_error is_unexpected
lex_unexpected c cs p h = ground arith

advance_unexpected :
    (p : JsonParser) (c : ℕ) (cs : Bytes)
    → p.rest ≡ c ∷ cs
    → is_unexpected c ≡ true
    → advance p ≡ returned (refused c cs p)
unfolding is_unexpected
advance_unexpected p c cs e h =
    advance-cons p c cs e (ground arith) (ground arith) ∙ ap returned (lex_unexpected c cs p h)

-- A key other than `routes` whose value is no number and no container changes nothing.
config_value_string :
    (start : Start) (key : Bytes) (p : JsonParser) (cfg : GatewayConfig)
    → key ≢ bytes "routes"
    → p.current_type ≡ string
    → config_value start key p cfg ≡ returned (p, cfg)
unfolding config_value read_int skipping skip_value skip_case is_number
config_value_string start key p cfg r e = elim (Option-cases (number_member key cfg)) [
  | inl none_ ↦ ground (arith, text_eq_iff key (bytes "routes"))
  | inr ((old, set), h) ↦ ground (arith, number_member_keeps key cfg old set h)
]

-- At an unexpected character where a colon should stand, a round of the loop over the keys stays
-- at that character with the same token.
config_field_unexpected :
    (start : Start) (p : JsonParser) (cfg : GatewayConfig) (c : ℕ) (cs : Bytes)
    → p.rest ≡ c ∷ cs
    → is_unexpected c ≡ true
    → p.current_type ≡ string
    → p.current_text ≢ bytes "routes"
    → config_field start (p, cfg) ≡ returned (refused c cs p, cfg)
unfolding config_field advance_twice next_key advance_past_comma past_comma
config_field_unexpected start p cfg c cs e u t r =
    let q = refused c cs p in
    ground (
      arith,
      advance_unexpected p c cs e u,
      advance_unexpected q c cs refl u,
      config_value_string start p.current_text q cfg r t,
    )

keys_unexpected :
    (start : Start) (p : JsonParser) (cfg : GatewayConfig) (c : ℕ) (cs : Bytes) (fuel : ℕ)
    → p.rest ≡ c ∷ cs
    → is_unexpected c ≡ true
    → p.current_type ≡ string
    → p.current_text ≢ bytes "routes"
    → while_loop fuel at_string (config_field start) (p, cfg) ≡ hanging
unfolding while_loop is_string
keys_unexpected start p cfg c cs zero e u t r = refl
keys_unexpected start p cfg c cs (suc fuel) e u t r =
    let q = refused c cs p in
    let once = config_field_unexpected start p cfg c cs e u t r in
    let again = config_field_unexpected start q cfg c cs refl u t r in
    let stuck = while_loop_stuck at_string (config_field start) (q, cfg) (rw t refl) again fuel in
    rw (t, while_loop) (rw once stuck)

-- Loading a configuration does not return, with any fuel, when its first key, which is not
-- `routes` and has no quote or backslash, is followed by a character that starts no token.
pub load_json_hangs :
    (start : Start) (key rest : Bytes) (c : ℕ)
    → All (λ d. is_plain d ≡ true) key
    → key ≢ bytes "routes"
    → is_unexpected c ≡ true
    → load_json start (b'{' ∷ 34 ∷ key ++ 34 ∷ c ∷ rest) ≡ hanging
unfolding load_json parse_config config_fields lex lex_char
load_json_hangs start key rest c plain r u =
    let text = key ++ 34 ∷ c ∷ rest in
    let p = json_parser start.type (b'{' ∷ 34 ∷ text) in
    let q = lex (b'{' ∷ 34 ∷ text) p in
    let t = lex (34 ∷ text) q in
    ground (
      arith,
      advance-cons p b'{' (34 ∷ text) refl refl refl,
      advance-cons q 34 text refl refl refl,
      lex_string-plain key (c ∷ rest) plain,
      keys_unexpected start t initial_config c rest start.fuel,
    )
