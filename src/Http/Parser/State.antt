-- ===== src/Http/Parser/State.antt =====
-- The variables of `HttpParser`, `reset`, `check_size_limit`, `consume_partial` and
-- `extract_line`. `max_size_` is not negative, and `content_length_` is -1 until it is known.
use api_gateway.Prelude.{
  ℕ, ◌+◌, Bool, true, false, Option, none, some, [], ◌++◌, Bytes, length, take, drop, ltb, ◌==◌,
  if◌then◌else◌, find_char, get_elem?, byte_is,
}
use api_gateway.Prelude.Int.{ℤ, negsuc}
use api_gateway.Http.Request.{HttpRequest, empty_request}

pub data State : Type 0 where
  request_line headers body chunked_body complete error : State

pub data ChunkPhase : Type 0 where
  size_line chunk_data trailer chunk_end : ChunkPhase

pub record HttpParser : Type 0 where
  pub state : State
  pub request : HttpRequest
  pub raw : Bytes
  pub partial : Bytes
  pub max_size : ℕ
  pub is_chunked : Bool
  pub content_length : ℤ
  pub body_read : ℕ
  pub chunk_phase : ChunkPhase
  pub current_chunk_size : ℕ
  pub current_chunk_read : ℕ

-- A new parser with the size limit that the connection sets.
abbrev pub http_parser : ℕ → HttpParser
http_parser max_size = record {
  state = request_line;
  request = empty_request;
  raw = [];
  partial = [];
  max_size = max_size;
  is_chunked = false;
  content_length = negsuc 0;
  body_read = 0;
  chunk_phase = size_line;
  current_chunk_size = 0;
  current_chunk_read = 0;
}

-- `partial_` is kept: it holds what follows the message.
unfoldable pub reset : HttpParser → HttpParser
reset p = record p {
  state = request_line;
  request = empty_request;
  raw = [];
  is_chunked = false;
  content_length = negsuc 0;
  body_read = 0;
  chunk_phase = size_line;
  current_chunk_size = 0;
  current_chunk_read = 0;
}

unfoldable pub check_size_limit : HttpParser → HttpParser × Bool
check_size_limit p =
    if ltb p.max_size (length p.raw) then (record p { state = error }, false) else (p, true)

unfoldable pub consume_partial : ℕ → HttpParser → HttpParser
consume_partial n p =
    if n == 0 then p else record p { raw = p.raw ++ take n p.partial; partial = drop n p.partial }

-- The text before the first `\r`, if `\n` follows it.
unfoldable pub line_of : Bytes → Option Bytes
line_of s = elim (find_char 13 s) [
  | none ↦ none
  | some cr ↦ if byte_is (get_elem? s (cr + 1)) 10 then some (take cr s) else none
]

unfoldable pub extract_line : HttpParser → Option Bytes
unfolding line_of
extract_line p = line_of p.partial

unfoldable pub consume_line : Bytes → HttpParser → HttpParser
unfolding consume_partial
consume_line line p = consume_partial (length line + 2) p
