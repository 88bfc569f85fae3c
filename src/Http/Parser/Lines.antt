-- ===== src/Http/Parser/Lines.antt =====
-- `process_request_line`, `process_headers` and `finalize_headers`.
use api_gateway.Prelude.{
  suc, Bool, true, false, Option, none, some, Bytes, bytes, is_empty, length, ltb, if◌then◌else◌,
  starts_with, crlf, Round, done, more, loop,
}
use api_gateway.Prelude.Int.{ℤ, pos, is_positive}
use api_gateway.Prelude.Map.{bytes_key, lookup}
use api_gateway.Http.Text.{contains_word, parse_int_safe}
use api_gateway.Http.Message.{parse_request_line, add_header}
use api_gateway.Http.Parser.State.{
  headers, body, chunked_body, complete, error, size_line, HttpParser, consume_partial,
  extract_line, consume_line,
}

unfoldable pub request_line_done : Bytes → HttpParser → HttpParser
request_line_done line p =
    if (parse_request_line line p.request).1
    then record (consume_line line (record p { request = (parse_request_line line p.request).0 })) {
      state = headers;
    }
    else record p { request = (parse_request_line line p.request).0; state = error }

-- A leading empty line is passed over, and the next one waits for the next call.
unfoldable pub process_request_line : HttpParser → HttpParser
unfolding request_line_done
process_request_line p = elim (extract_line p) [
  | none ↦ p
  | some line ↦ if is_empty line then consume_line line p else request_line_done line p
]

says_chunked : Option Bytes → Bool
says_chunked none = false
says_chunked (some v) = contains_word (bytes "chunked") v

-- What `parse_int_safe` refuses leaves `content_length_` as it was.
declared_length : Option Bytes → ℤ → ℤ
declared_length none old = old
declared_length (some v) old = elim (parse_int_safe v) [ none ↦ old | some n ↦ pos n ]

unfoldable pub start_body : HttpParser → HttpParser
start_body p =
    if is_positive p.content_length
    then record p { state = body; body_read = 0 }
    else record p { state = complete }

unfoldable pub start_chunks : HttpParser → HttpParser
start_chunks p = record p {
  state = chunked_body;
  chunk_phase = size_line;
  current_chunk_size = 0;
  current_chunk_read = 0;
}

-- `is_chunked_` is set, never cleared, by the header.
unfoldable pub mark_chunked : HttpParser → HttpParser
unfolding says_chunked
mark_chunked p =
    if says_chunked (lookup (bytes "transfer-encoding") p.request.headers)
    then record p { is_chunked = true }
    else p

unfoldable pub finalize_headers : HttpParser → HttpParser
unfolding start_body start_chunks mark_chunked declared_length
finalize_headers p =
    let q = mark_chunked p in
    if q.is_chunked
    then start_chunks q
    else start_body (record q {
      content_length =
          declared_length (lookup (bytes "content-length") q.request.headers) q.content_length;
    })

-- One round of `process_headers`.
unfoldable pub header_line : Bytes → HttpParser → HttpParser
header_line line p =
    if is_empty line
    then consume_line line p
    else consume_line line (record p { request = add_header line p.request })

unfoldable pub header_round : HttpParser → Round HttpParser
unfolding header_line
header_round p =
    if ltb (length p.partial) 2
    then done p
    else if starts_with crlf p.partial
    then done (finalize_headers (consume_partial 2 p))
    else elim (extract_line p) [ none ↦ done p | some line ↦ more (header_line line p) ]

abbrev pub or_else {ℓ} : {A : Type ℓ} → Option A → A → A
or_else none a = a
or_else (some b) a = b

-- Every round but the last takes two bytes at least, so the fuel is enough.
unfoldable pub process_headers : HttpParser → HttpParser
process_headers p = or_else (loop (suc (length p.partial)) header_round p) p
