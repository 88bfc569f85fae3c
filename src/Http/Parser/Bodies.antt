-- ===== src/Http/Parser/Bodies.antt =====
-- `process_body` and `process_chunked`.
use api_gateway.Prelude.{
  ℕ, suc, ◌+◌, ◌-◌, min, Bool, true, false, none, some, Bytes, length, take, drop, ltb, leb, ◌==◌,
  not, if◌then◌else◌, starts_with, find, find_char, crlf, double_crlf, Round, done, more, loop,
}
use api_gateway.Prelude.Int.{to_size, is_positive}
use api_gateway.Http.Text.{parse_hex}
use api_gateway.Http.Parser.State.{
  State, chunked_body, complete, error, ChunkPhase, size_line, chunk_data, trailer, chunk_end,
  HttpParser, check_size_limit, consume_partial, extract_line, consume_line,
}
use api_gateway.Http.Parser.Lines.{or_else}

-- The body is cut out of `raw_`, behind the first empty line.
unfoldable pub take_body : HttpParser → HttpParser
take_body p = elim (find double_crlf p.raw) [
  | none ↦ p
  | some he ↦ record p {
    request = record (p.request) { body = take (to_size p.content_length) (drop (he + 4) p.raw) };
  }
]

unfoldable pub finish_body : HttpParser → HttpParser
unfolding take_body
finish_body p = record (take_body p) { state = complete }

unfoldable pub read_body : ℕ → HttpParser → HttpParser
unfolding finish_body
read_body n p =
    let q = record (consume_partial n p) { body_read = p.body_read + n } in
    if leb (to_size p.content_length) q.body_read then finish_body q else q

unfoldable pub process_body : HttpParser → HttpParser
unfolding read_body finish_body
process_body p =
    if not (is_positive p.content_length)
    then record p { state = complete }
    else if to_size p.content_length - p.body_read == 0
    then finish_body p
    else read_body (min (length p.partial) (to_size p.content_length - p.body_read)) p

-- The text of a size line up to the first `;`.
unfoldable pub without_extension : Bytes → Bytes
without_extension line = elim (find_char b';' line) [ none ↦ line | some semi ↦ take semi line ]

unfoldable pub begin_chunk : HttpParser → Round HttpParser
begin_chunk p =
    if p.current_chunk_size == 0
    then more (record p { chunk_phase = trailer })
    else if (check_size_limit p).1
    then more (record p { chunk_phase = chunk_data; current_chunk_read = 0 })
    else done (check_size_limit p).0

unfoldable pub size_round : HttpParser → Round HttpParser
unfolding without_extension begin_chunk
size_round p = elim (extract_line p) [
  | none ↦ done p
  | some line ↦ elim (parse_hex (without_extension line)) [
    | none ↦ done (record p { state = error })
    | some sz ↦ begin_chunk (consume_line line (record p { current_chunk_size = sz }))
  ]
]

unfoldable pub end_of_chunk : HttpParser → Round HttpParser
end_of_chunk p =
    if ltb (length p.partial) 2
    then done p
    else if starts_with crlf p.partial
    then more (record (consume_partial 2 p) { chunk_phase = size_line })
    else done (record p { state = error })

unfoldable pub read_chunk : ℕ → HttpParser → Round HttpParser
read_chunk n p =
    let q = record (consume_partial n p) { current_chunk_read = p.current_chunk_read + n } in
    if (check_size_limit q).1
    then (if leb q.current_chunk_size q.current_chunk_read then more q else done q)
    else done (check_size_limit q).0

unfoldable pub data_round : HttpParser → Round HttpParser
unfolding end_of_chunk read_chunk
data_round p =
    if p.current_chunk_size - p.current_chunk_read == 0
    then end_of_chunk p
    else read_chunk (min (length p.partial) (p.current_chunk_size - p.current_chunk_read)) p

-- One round of the inner loop over the trailer lines; it goes on as a round of the outer loop,
-- which comes back to the same case.
unfoldable pub trailer_round : HttpParser → Round HttpParser
trailer_round p =
    if ltb (length p.partial) 2
    then done p
    else if starts_with crlf p.partial
    then more (record (consume_partial 2 p) { chunk_phase = chunk_end })
    else elim (extract_line p) [ none ↦ done p | some line ↦ more (consume_line line p) ]

unfoldable pub chunk_case : ChunkPhase → HttpParser → Round HttpParser
unfolding size_round data_round trailer_round
chunk_case size_line p = size_round p
chunk_case chunk_data p = data_round p
chunk_case trailer p = trailer_round p
chunk_case chunk_end p = done (record p { state = complete })

unfoldable pub is_chunked_body : State → Bool
is_chunked_body chunked_body = true
is_chunked_body _ = false

unfoldable pub chunked_round : HttpParser → Round HttpParser
unfolding chunk_case is_chunked_body
chunked_round p = if is_chunked_body p.state then chunk_case p.chunk_phase p else done p

-- Every round but the last takes a byte at least, so the fuel is enough.
unfoldable pub process_chunked : HttpParser → HttpParser
process_chunked p = or_else (loop (suc (length p.partial)) chunked_round p) p
