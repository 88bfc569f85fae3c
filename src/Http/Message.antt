-- ===== src/Http/Message.antt =====
-- The one-shot parser of src/http/parser.cpp: the request line, and a whole message.
use api_gateway.Prelude.{
  ℕ, zero, suc, ◌+◌, ◌-◌, Bool, false, not, ◌&&◌, Option, none, some, Bytes, bytes, is_empty,
  length, take, drop, ltb, if◌then◌else◌, find, find_char, crlf, double_crlf, byte_is, get_elem?,
  Round, done, more, loop,
}
use mathlib.Core.Option
use api_gateway.Prelude.Int.{ℤ, pos, negsuc}
use api_gateway.Prelude.Map.{bytes_key, insert}
use api_gateway.Http.Text.{to_lower, is_blank, drop_while, parse_int_safe, str_iequal}
use api_gateway.Http.Request.{HttpRequest}

-- Whether method, path and version are all there.
pub is_complete_line : HttpRequest → Bool
is_complete_line req =
    not (is_empty req.method) && (not (is_empty req.path) && not (is_empty req.version))

pub fill_request_line : Bytes → ℕ → ℕ → HttpRequest → HttpRequest
fill_request_line line pos1 pos2 req = record req {
  method = take pos1 line;
  path = take (pos2 - pos1 - 1) (drop (pos1 + 1) line);
  version = drop (pos2 + 1) line;
}

-- `line.find(c, from)`
unfoldable pub find_char_from : ℕ → ℕ → Bytes → Option ℕ
find_char_from c from line = Option.map (λ i. i + from) (find_char c (drop from line))

unfoldable pub parse_request_line : Bytes → HttpRequest → HttpRequest × Bool
unfolding is_complete_line fill_request_line find_char_from
parse_request_line line req = elim (find_char 32 line) [
  | none ↦ (req, false)
  | some pos1 ↦ elim (find_char_from 32 (pos1 + 1) line) [
    | none ↦ (req, false)
    | some pos2 ↦ (
      fill_request_line line pos1 pos2 req,
      is_complete_line (fill_request_line line pos1 pos2 req),
    )
  ]
]

-- `headers[key].assign(value)` for a line with a colon; a line without one is passed over.
unfoldable pub add_header : Bytes → HttpRequest → HttpRequest
unfolding is_blank
add_header line req = elim (find_char b':' line) [
  | none ↦ req
  | some colon ↦ record req {
    headers =
        insert (to_lower (take colon line)) (drop_while is_blank (drop (colon + 1) line))
          req.headers;
  }
]

-- The variables of the loop over the lines; `failed` is the early `return false`.
pub record LineScan : Type 0 where
  pub line_start : ℕ
  pub req : HttpRequest
  pub failed : Bool

scan_line : Bytes → LineScan → LineScan
unfolding parse_request_line add_header
scan_line line s =
    if is_empty line
    then s
    else if is_empty s.req.method
    then record s {
      req = (parse_request_line line s.req).0;
      failed = not (parse_request_line line s.req).1;
    }
    else record s { req = add_header line s.req }

next_line : ℕ → LineScan → Round LineScan
next_line line_end s = if s.failed then done s else more (record s { line_start = line_end + 2 })

unfoldable pub scan_round : Bytes → ℕ → LineScan → Round LineScan
unfolding scan_line next_line
scan_round raw header_end s =
    if ltb s.line_start header_end
    then elim (find crlf (drop s.line_start raw)) [
      | none ↦ done s
      | some i ↦
          if ltb header_end (s.line_start + i)
          then done s
          else next_line (s.line_start + i) (scan_line (take i (drop s.line_start raw)) s)
    ]
    else done s

abbrev or_else {ℓ} : {A : Type ℓ} → Option A → A → A
or_else none a = a
or_else (some b) a = b

abbrev pub scan_start : Bytes → ℕ → HttpRequest → LineScan
scan_start raw header_end req = record {
  line_start = 0;
  req = record req { body = drop (header_end + 4) raw };
  failed = false;
}

-- Each round moves `line_start` on, so that `header_end + 1` rounds are enough.
unfoldable pub parse_http_request : Bytes → HttpRequest → HttpRequest × Bool
unfolding scan_round is_complete_line
parse_http_request raw req = elim (find double_crlf raw) [
  | none ↦ (req, false)
  | some header_end ↦
      let s =
        or_else (loop (suc header_end) (scan_round raw header_end) (scan_start raw header_end req))
          (scan_start raw header_end req) in
      (s.req, not s.failed && is_complete_line s.req)
]

line_names : Bytes → Bytes → Bool
unfolding str_iequal
line_names name line =
    ltb (length name) (length line)
    && (byte_is (get_elem? line (length name)) b':' && str_iequal (take (length name) line) name)

-- The text from the first line of the given name on; `p` moves on by two bytes at least.
unfoldable pub header_find_icase : ℕ → Bytes → Bytes → Option Bytes
unfolding line_names
header_find_icase zero name p = none
header_find_icase (suc fuel) name p = if is_empty p then none else elim (find crlf p) [
  | none ↦ if line_names name p then some p else none
  | some e ↦
      if line_names name (take e p) then some p else header_find_icase fuel name (drop (e + 2) p)
]

content_length_of : Bytes → ℤ
content_length_of value = elim (parse_int_safe value) [ none ↦ negsuc 0 | some n ↦ pos n ]

up_to_crlf : Bytes → Bytes
up_to_crlf s = elim (find crlf s) [ none ↦ s | some e ↦ take e s ]

unfoldable pub parse_content_length : Bytes → ℤ
unfolding header_find_icase content_length_of up_to_crlf
parse_content_length data_ =
    elim (header_find_icase (suc (length data_)) (bytes "Content-Length") data_) [
      | none ↦ negsuc 0
      | some p ↦ content_length_of (up_to_crlf (drop_while is_blank (drop 15 p)))
    ]
