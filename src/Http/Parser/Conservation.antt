-- ===== src/Http/Parser/Conservation.antt =====
-- No byte is lost, doubled or reordered: what has been parsed, followed by what is pending.
use api_gateway.Prelude.{
  ℕ, suc, ◌+◌, ◌≡◌, refl, ◌∙◌, false, Option, none, some, ◌++◌, append_assoc, Bytes, length, take,
  drop, take-append-drop, after_round, loop_inv, Option-cases, inl, inr, arith,
}
use api_gateway.Http.Parser.State.{
  ChunkPhase, size_line, chunk_data, trailer, chunk_end, HttpParser, check_size_limit,
  consume_partial, extract_line, consume_line,
}
use api_gateway.Http.Parser.Lines.{
  or_else, process_request_line, finalize_headers, header_round, process_headers,
}
use api_gateway.Http.Text.{parse_hex}
use api_gateway.Http.Message.{add_header}
use api_gateway.Http.Parser.Bodies.{
  process_body, without_extension, begin_chunk, size_round, end_of_chunk, read_chunk, data_round,
  trailer_round, chunk_case, chunked_round, process_chunked,
}
use api_gateway.Http.Parser.Process.{is_over, process_round, process, parse_result, parse}

-- The bytes of the message so far, and those that wait behind it.
abbrev pub content : HttpParser → Bytes
content p = p.raw ++ p.partial

consume_partial-content : (n : ℕ) (p : HttpParser) → content (consume_partial n p) ≡ content p
unfolding consume_partial
consume_partial-content n p =
    ground (
      arith,
      append_assoc p.raw (take n p.partial) (drop n p.partial),
      take-append-drop n p.partial,
    )

process_request_line-content : (p : HttpParser) → content (process_request_line p) ≡ content p
unfolding process_request_line consume_line
process_request_line-content p = grind (arith, consume_partial-content)

finalize_headers-content : (p : HttpParser) → content (finalize_headers p) ≡ content p
unfolding finalize_headers
finalize_headers-content p = ground arith

header_round-content : (p : HttpParser) → content (after_round (header_round p)) ≡ content p
unfolding header_round consume_line
header_round-content p = elim (Option-cases (extract_line p)) [
  | inl e ↦
      ground (arith, consume_partial-content 2 p, finalize_headers-content (consume_partial 2 p))
  | inr (line, e) ↦ ground (
    arith,
    consume_partial-content 2 p,
    finalize_headers-content (consume_partial 2 p),
    consume_partial-content (length line + 2) p,
    consume_partial-content (length line + 2) (record p { request = add_header line p.request }),
  )
]

or_else-content :
    (o : Option HttpParser) (p : HttpParser)
    → ((q : HttpParser) → o ≡ some q → content q ≡ content p)
    → content (or_else o p) ≡ content p
or_else-content none p h = refl
or_else-content (some q) p h = h q refl

process_headers-content : (p : HttpParser) → content (process_headers p) ≡ content p
unfolding process_headers
process_headers-content p = or_else-content _ p λ q e.
    loop_inv (λ r. content r ≡ content p) header_round (λ r h. header_round-content r ∙ h)
      (suc (length p.partial)) p q e refl

process_body-content : (p : HttpParser) → content (process_body p) ≡ content p
unfolding process_body
process_body-content p = grind (arith, consume_partial-content)

check_size_limit-content : (p : HttpParser) → content (check_size_limit p).0 ≡ content p
unfolding check_size_limit
check_size_limit-content p = ground arith

begin_chunk-content : (p : HttpParser) → content (after_round (begin_chunk p)) ≡ content p
unfolding begin_chunk check_size_limit
begin_chunk-content p = ground arith

size_round-content : (p : HttpParser) → content (after_round (size_round p)) ≡ content p
unfolding size_round consume_line
size_round-content p = elim (Option-cases (extract_line p)) [
  | inl e ↦ ground arith
  | inr (line, e) ↦ elim (Option-cases (parse_hex (without_extension line))) [
    | inl h ↦ ground arith
    | inr (sz, h) ↦
        let q = consume_line line (record p { current_chunk_size = sz }) in
        rw (e, size_round)
          (rw (h, size_round)
            (begin_chunk-content q
              ∙ consume_partial-content (length line + 2) (record p { current_chunk_size = sz })))
  ]
]

data_round-content : (p : HttpParser) → content (after_round (data_round p)) ≡ content p
unfolding data_round end_of_chunk read_chunk check_size_limit
data_round-content p = grind (arith, consume_partial-content)

trailer_round-content : (p : HttpParser) → content (after_round (trailer_round p)) ≡ content p
unfolding trailer_round consume_line
trailer_round-content p = elim (Option-cases (extract_line p)) [
  | inl e ↦ ground (arith, consume_partial-content 2 p)
  | inr (line, e) ↦
      ground (arith, consume_partial-content 2 p, consume_partial-content (length line + 2) p)
]

chunk_case-content :
    (phase : ChunkPhase) (p : HttpParser) → content (after_round (chunk_case phase p)) ≡ content p
unfolding chunk_case
chunk_case-content size_line p = size_round-content p
chunk_case-content chunk_data p = data_round-content p
chunk_case-content trailer p = trailer_round-content p
chunk_case-content chunk_end p = refl

chunked_round-content : (p : HttpParser) → content (after_round (chunked_round p)) ≡ content p
unfolding chunked_round
chunked_round-content p = ground (arith, chunk_case-content p.chunk_phase p)

process_chunked-content : (p : HttpParser) → content (process_chunked p) ≡ content p
unfolding process_chunked
process_chunked-content p = or_else-content _ p λ q e.
    loop_inv (λ r. content r ≡ content p) chunked_round (λ r h. chunked_round-content r ∙ h)
      (suc (length p.partial)) p q e refl

process_round-content : (p : HttpParser) → content (after_round (process_round p)) ≡ content p
unfolding process_round
process_round-content p = ground (
  arith,
  process_request_line-content p,
  process_headers-content p,
  process_body-content p,
  process_chunked-content p,
)

-- The dispatch loop moves bytes from what waits to the message, and changes none of them.
pub process-content :
    (fuel : ℕ) (p q : HttpParser) → process fuel p ≡ some q → content q ≡ content p
unfolding process
process-content fuel p q e =
    loop_inv (λ r. content r ≡ content p) process_round (λ r h. process_round-content r ∙ h) fuel p
      q e refl

parse_result-content :
    (input : Bytes) (n : ℕ) (p : HttpParser) → content (parse_result input n p).0 ≡ content p
unfolding parse_result check_size_limit
parse_result-content input n p = ground arith

-- A call of `parse` that returns, on a parser neither complete nor in error, keeps every byte in
-- order: the bytes of the message so far and those waiting are what they were, followed by the
-- input.
pub parse-content :
    (fuel : ℕ) (input : Bytes) (p q : HttpParser) (n : ℕ)
    → is_over p.state ≡ false
    → parse fuel input p ≡ some (q, n)
    → q.raw ++ q.partial ≡ (p.raw ++ p.partial) ++ input
unfolding parse
parse-content fuel input p q n open_ e =
    let fed = record p { partial = p.partial ++ input } in
    elim (Option-cases (process fuel fed)) [
      | inl h ↦ ground arith
      | inr (r, h) ↦ ground (
        arith,
        parse_result-content input (length p.raw) r,
        process-content fuel fed r h,
        append_assoc p.raw p.partial input,
      )
    ]
