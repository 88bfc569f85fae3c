-- ===== src/Http/Parser/Waiting.antt =====
-- What the loop over the chunks waits for when it gives up with bytes pending, and the dispatch
-- loop that then spins.
use api_gateway.Prelude.{
  ◌≡◌, ◌≢◌, ◌≤◌, ◌<◌, none, length, refl, [], ◌∷◌, Bytes, find_char, done, loop_last, Option-cases,
  inl, inr, arith, suc, zero, more, loop, loop-more, ◌∙◌,
}
use api_gateway.Http.Text.{parse_hex}
use api_gateway.Http.Parser.State.{
  chunked_body, ChunkPhase, size_line, chunk_data, trailer, chunk_end, HttpParser, check_size_limit,
  consume_line, extract_line, line_of,
}
use api_gateway.Http.Parser.Bodies.{
  without_extension, size_round, end_of_chunk, read_chunk, data_round, trailer_round, chunk_case,
  chunked_round, process_chunked,
}
use api_gateway.Http.Parser.Process.{process_round, process}
use api_gateway.Http.Parser.Totality.{pending, process_chunked_lem}
use api_gateway.Http.Parser.Stalling.{
  Stalls, IsStalled, begin_chunk_gives_up, chunked_round_gives_up, nil_of_length,
}

-- The pending bytes hold no size line or trailer line, or are a single byte behind all the bytes
-- of a chunk.
pub IsCutOff : ChunkPhase → HttpParser → Type 0
IsCutOff size_line q = extract_line q ≡ none
IsCutOff chunk_data q = (q.current_chunk_size ≤ q.current_chunk_read) × (length q.partial ≡ 1)
IsCutOff trailer q = extract_line q ≡ none
IsCutOff chunk_end q = ⊥

size_round_waits :
    (q : HttpParser) → size_round q ≡ done q → q.state ≡ chunked_body → extract_line q ≡ none
unfolding size_round
size_round_waits q e s = elim (Option-cases (extract_line q)) [
  | inl h ↦ h
  | inr (line, h) ↦ elim (Option-cases (parse_hex (without_extension line))) [
    | inl k ↦ ground arith
    | inr (sz, k) ↦
        let r = consume_line line (record q { current_chunk_size = sz }) in
        ground (arith, begin_chunk_gives_up r q)
  ]
]

data_round_waits :
    (q : HttpParser)
    → data_round q ≡ done q
    → IsStalled q
    → (q.current_chunk_size ≤ q.current_chunk_read) × (length q.partial ≡ 1)
unfolding data_round end_of_chunk read_chunk check_size_limit
data_round_waits q e s = ground (arith, nil_of_length q.partial)

short-line_of : (t : Bytes) → length t < 2 → line_of t ≡ none
unfolding line_of find_char
short-line_of [] h = refl
short-line_of (c ∷ []) h = ground arith
short-line_of (c ∷ d ∷ t) h = absurd (omega arith)

short-extract_line : (q : HttpParser) → length q.partial < 2 → extract_line q ≡ none
unfolding extract_line
short-extract_line q h = short-line_of q.partial h

trailer_round_waits : (q : HttpParser) → trailer_round q ≡ done q → extract_line q ≡ none
unfolding trailer_round
trailer_round_waits q e = elim (Option-cases (extract_line q)) [
  | inl h ↦ h
  | inr (line, h) ↦ ground (arith, short-extract_line q)
]

chunk_case_waits :
    (phase : ChunkPhase) (q : HttpParser)
    → chunk_case phase q ≡ done q
    → IsStalled q
    → IsCutOff phase q
unfolding chunk_case IsCutOff
chunk_case_waits size_line q e s = size_round_waits q e s.0
chunk_case_waits chunk_data q e s = data_round_waits q e s
chunk_case_waits trailer q e s = trailer_round_waits q e
chunk_case_waits chunk_end q e s = ground arith

chunked_round_waits :
    (q : HttpParser) → chunked_round q ≡ done q → IsStalled q → IsCutOff q.chunk_phase q
unfolding chunked_round
chunked_round_waits q e s = chunk_case_waits q.chunk_phase q (ground arith) s

-- The loop over the chunks leaves bytes behind only where it needs more to go on.
pub process_chunked-IsCutOff :
    (p : HttpParser)
    → IsStalled (process_chunked p)
    → IsCutOff (process_chunked p).chunk_phase (process_chunked p)
process_chunked-IsCutOff p s =
    let q = process_chunked p in
    let (r, last) = loop_last chunked_round (suc (pending p)) p q (process_chunked_lem p) in
    chunked_round_waits q (chunked_round_gives_up r q last s) s

-- Rounds of the dispatch loop that lead from one parser to another.
pub data Reaches : HttpParser → HttpParser → Type 0 where
  here : {p : HttpParser} → Reaches p p
  round : {p q r : HttpParser} → process_round p ≡ more q → Reaches q r → Reaches p r

-- The loop comes to a parser whose pending bytes are cut off within a chunked body, and never
-- ends.
pub record Hangs (p : HttpParser) : Type 0 where
  pub stuck : HttpParser
  pub reached : Reaches p stuck
  pub chunked : stuck.state ≡ chunked_body
  pub bytes_left : stuck.partial ≢ []
  pub cut_off : IsCutOff stuck.chunk_phase stuck
  pub never : Stalls p

Stalls-more : (p q : HttpParser) → process_round p ≡ more q → Stalls q → Stalls p
unfolding process loop
Stalls-more p q e s zero = refl
Stalls-more p q e s (suc fuel) = loop-more process_round fuel p q e ∙ s fuel

pub Hangs-more : (p q : HttpParser) → process_round p ≡ more q → Hangs q → Hangs p
Hangs-more p q e s = record {
  stuck = s.stuck;
  reached = Reaches.round e s.reached;
  chunked = s.chunked;
  bytes_left = s.bytes_left;
  cut_off = s.cut_off;
  never = Stalls-more p q e s.never;
}
