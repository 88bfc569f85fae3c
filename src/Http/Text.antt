-- ===== src/Http/Text.antt =====
-- Characters and numbers in messages: the helpers of src/http/parser.cpp and src/http/request.cpp,
-- and `parse_int_safe` of src/utils/utils.cpp.
use api_gateway.Prelude.{
  ℕ, suc, ◌+◌, ◌-◌, ◌*◌, ◌%◌, ◌^◌, Bool, true, false, not, ◌&&◌, ◌||◌, Option, none, some, [], ◌∷◌,
  Bytes, is_empty, length, take, ltb, leb, ◌==◌, if◌then◌else◌,
}

unfoldable pub ascii_to_lower : ℕ → ℕ
ascii_to_lower c = if leb b'A' c && leb c b'Z' then c + 32 else c

unfoldable pub to_lower : Bytes → Bytes
to_lower [] = []
to_lower (c ∷ cs) = ascii_to_lower c ∷ to_lower cs

same_letters : Bytes → Bytes → Bool
same_letters [] [] = true
same_letters [] (d ∷ ds) = false
same_letters (c ∷ cs) [] = false
same_letters (c ∷ cs) (d ∷ ds) = ascii_to_lower c == ascii_to_lower d && same_letters cs ds

unfoldable pub str_iequal : Bytes → Bytes → Bool
unfolding same_letters ascii_to_lower
str_iequal a b = length a == length b && same_letters a b

-- The loop over `i + n <= v.size()` that looks for a word of `n` letters at every place.
unfoldable pub contains_word : Bytes → Bytes → Bool
contains_word word [] = leb (length word) 0 && str_iequal [] word
contains_word word (c ∷ cs) =
    (leb (length word) (suc (length cs)) && str_iequal (take (length word) (c ∷ cs)) word)
    || contains_word word cs

unfoldable pub is_digit : ℕ → Bool
is_digit c = leb b'0' c && leb c b'9'

-- `isspace` in the C locale.
unfoldable pub is_space : ℕ → Bool
is_space c = c == 32 || (leb 9 c && leb c 13)

unfoldable pub is_blank : ℕ → Bool
is_blank c = c == 32 || c == 9

unfoldable pub drop_while : (ℕ → Bool) → Bytes → Bytes
drop_while p [] = []
drop_while p (c ∷ cs) = if p c then drop_while p cs else c ∷ cs

unfoldable pub take_while : (ℕ → Bool) → Bytes → Bytes
take_while p [] = []
take_while p (c ∷ cs) = if p c then c ∷ take_while p cs else []

unfoldable pub digits_value : ℕ → Bytes → ℕ
digits_value acc [] = acc
digits_value acc (c ∷ cs) = digits_value (acc * 10 + (c - b'0')) cs

-- `strtol(begin, &last, 10)` on the bytes up to `end`: the sign, the magnitude and what `last`
-- points to, or none where nothing is converted. The magnitude is not cut at LONG_MAX: the callers
-- test for what lies beyond it.
pub record Number : Type 0 where
  pub negative : Bool
  pub magnitude : ℕ
  pub rest : Bytes

strtol_digits : Bool → Bytes → Option Number
unfolding take_while drop_while digits_value is_digit
strtol_digits negative s =
    if is_empty (take_while is_digit s)
    then none
    else some (record {
      negative = negative;
      magnitude = digits_value 0 (take_while is_digit s);
      rest = drop_while is_digit s;
    })

strtol_sign : Bytes → Option Number
unfolding strtol_digits
strtol_sign [] = none
strtol_sign (c ∷ cs) =
    if c == b'-'
    then strtol_digits true cs
    else if c == b'+'
    then strtol_digits false cs
    else strtol_digits false (c ∷ cs)

unfoldable pub strtol : Bytes → Option Number
unfolding strtol_sign is_space
strtol s = strtol_sign (drop_while is_space s)

int_of_number : Number → Option ℕ
int_of_number n =
    if not (is_empty n.rest)
    then none
    else if (n.negative && ltb 0 n.magnitude) || ltb 2147483647 n.magnitude
    then none
    else some n.magnitude

unfoldable pub parse_int_safe : Bytes → Option ℕ
unfolding strtol int_of_number
parse_int_safe s =
    if is_empty s then none else elim (strtol s) [ none ↦ none | some n ↦ int_of_number n ]

hex_digit : ℕ → Option ℕ
hex_digit c =
    if leb b'0' c && leb c b'9'
    then some (c - b'0')
    else if leb b'a' c && leb c b'f'
    then some (c - b'a' + 10)
    else if leb b'A' c && leb c b'F'
    then some (c - b'A' + 10)
    else none

-- `(value << 4) | digit` on a 64-bit `size_t`: the low four bits of the shifted value are 0.
unfoldable pub parse_hex_from : ℕ → Bytes → Option ℕ
unfolding hex_digit
parse_hex_from value [] = some value
parse_hex_from value (c ∷ cs) = elim (hex_digit c) [
  | none ↦ none
  | some d ↦ parse_hex_from (value * 16 % 2 ^ 64 + d) cs
]

unfoldable pub parse_hex : Bytes → Option ℕ
unfolding parse_hex_from
parse_hex s = if is_empty s then none else parse_hex_from 0 s
