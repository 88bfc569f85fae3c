-- ===== src/Http/Parser/Totality.antt =====
-- The loops over header lines and over chunks end, within the fuel that they are given.
use api_gateway.Prelude.{
  ℕ, suc, ◌+◌, ◌-◌, ◌<◌, ◌≡◌, refl, Option, none, some, Bytes, length, length-drop, more, loop,
  loop_total, Option-cases, inl, inr, find_char, find_char-lt, min, arith,
}
use api_gateway.Http.Text.{parse_hex}
use api_gateway.Http.Message.{add_header}
use api_gateway.Http.Parser.State.{
  ChunkPhase, size_line, chunk_data, trailer, chunk_end, HttpParser, check_size_limit,
  consume_partial, consume_line, extract_line,
}
use api_gateway.Http.Parser.Lines.{or_else, header_line, header_round, process_headers}
use api_gateway.Http.Parser.Bodies.{
  without_extension, begin_chunk, size_round, end_of_chunk, read_chunk, data_round, trailer_round,
  chunk_case, chunked_round, process_chunked,
}

abbrev pub pending : HttpParser → ℕ
pending p = length p.partial

pub consume_partial-pending :
    (n : ℕ) (p : HttpParser) → pending (consume_partial n p) ≡ pending p - n
unfolding consume_partial
consume_partial-pending n p = ground (arith, length-drop n p.partial)

pub consume_partial_keeps :
    (n : ℕ) (p : HttpParser)
    → ((consume_partial n p).state ≡ p.state)
      × ((consume_partial n p).chunk_phase ≡ p.chunk_phase)
      × ((consume_partial n p).current_chunk_size ≡ p.current_chunk_size)
      × ((consume_partial n p).content_length ≡ p.content_length)
      × ((consume_partial n p).request ≡ p.request)
      × ((consume_partial n p).max_size ≡ p.max_size)
unfolding consume_partial
consume_partial_keeps n p = ground arith

pub extract_line-pos : (p : HttpParser) (line : Bytes) → extract_line p ≡ some line → 0 < pending p
unfolding extract_line
extract_line-pos p line e = elim (Option-cases (find_char 13 p.partial)) [
  | inl h ↦ ground arith
  | inr (i, h) ↦ let lt = find_char-lt 13 p.partial i h in omega arith
]

header_round-lower : (p q : HttpParser) → header_round p ≡ more q → pending q < pending p
unfolding header_round header_line consume_line
header_round-lower p q e = elim (Option-cases (extract_line p)) [
  | inl h ↦ ground arith
  | inr (line, h) ↦ ground (
    arith,
    extract_line-pos p line h,
    consume_partial-pending (length line + 2) p,
    consume_partial-pending (length line + 2) (record p { request = add_header line p.request }),
  )
]

begin_chunk-pending : (p q : HttpParser) → begin_chunk p ≡ more q → pending q ≡ pending p
unfolding begin_chunk check_size_limit
begin_chunk-pending p q e = ground arith

size_round-lower : (p q : HttpParser) → size_round p ≡ more q → pending q < pending p
unfolding size_round consume_line
size_round-lower p q e = elim (Option-cases (extract_line p)) [
  | inl h ↦ ground arith
  | inr (line, h) ↦ elim (Option-cases (parse_hex (without_extension line))) [
    | inl k ↦ ground arith
    | inr (sz, k) ↦
        let r = consume_line line (record p { current_chunk_size = sz }) in
        ground (
          arith,
          extract_line-pos p line h,
          begin_chunk-pending r q,
          consume_partial-pending (length line + 2) (record p { current_chunk_size = sz }),
        )
  ]
]

data_round-lower : (p q : HttpParser) → data_round p ≡ more q → pending q < pending p
unfolding data_round end_of_chunk read_chunk check_size_limit
data_round-lower p q e = ground (
  arith,
  consume_partial-pending 2 p,
  consume_partial-pending (min (pending p) (p.current_chunk_size - p.current_chunk_read)) p,
  consume_partial_keeps (min (pending p) (p.current_chunk_size - p.current_chunk_read)) p,
)

trailer_round-lower : (p q : HttpParser) → trailer_round p ≡ more q → pending q < pending p
unfolding trailer_round consume_line
trailer_round-lower p q e = elim (Option-cases (extract_line p)) [
  | inl h ↦ ground (arith, consume_partial-pending 2 p)
  | inr (line, h) ↦ ground (
    arith,
    extract_line-pos p line h,
    consume_partial-pending 2 p,
    consume_partial-pending (length line + 2) p,
  )
]

chunk_case-lower :
    (phase : ChunkPhase) (p q : HttpParser) → chunk_case phase p ≡ more q → pending q < pending p
unfolding chunk_case
chunk_case-lower size_line p q e = size_round-lower p q e
chunk_case-lower chunk_data p q e = data_round-lower p q e
chunk_case-lower trailer p q e = trailer_round-lower p q e
chunk_case-lower chunk_end p q e = cc

chunked_round-lower : (p q : HttpParser) → chunked_round p ≡ more q → pending q < pending p
unfolding chunked_round
chunked_round-lower p q e = ground (arith, chunk_case-lower p.chunk_phase p q)

or_else-some :
    (o : Option HttpParser) (p : HttpParser)
    → (q : HttpParser) × (o ≡ some q)
    → o ≡ some (or_else o p)
or_else-some none p h = cc
or_else-some (some q) p h = refl

pub process_headers_lem :
    (p : HttpParser) → loop (suc (pending p)) header_round p ≡ some (process_headers p)
unfolding process_headers
process_headers_lem p =
    or_else-some _ p
      (loop_total pending header_round header_round-lower (suc (pending p)) p (omega arith))

pub process_chunked_lem :
    (p : HttpParser) → loop (suc (pending p)) chunked_round p ≡ some (process_chunked p)
unfolding process_chunked
process_chunked_lem p =
    or_else-some _ p
      (loop_total pending chunked_round chunked_round-lower (suc (pending p)) p (omega arith))

-- The loops over the header lines and over the chunks end on every input within one round more
-- than there are pending bytes, with the result of the modelled function.
pub inner_loops_end :
    (p : HttpParser)
    → (loop (suc (length p.partial)) header_round p ≡ some (process_headers p))
      × (loop (suc (length p.partial)) chunked_round p ≡ some (process_chunked p))
inner_loops_end p = (process_headers_lem p, process_chunked_lem p)
