-- ===== src/Http/Parser/Stalling.antt =====
-- When the dispatch loop of `process` spins for ever.
use api_gateway.Prelude.{
  ℕ, zero, suc, ◌-◌, ◌≡◌, ◌≢◌, refl, ◌∙◌, false, none, Bytes, length, is_empty, done, more,
  loop_last, loop-done, loop-more, loop, find_char, ◌++◌, loop_stuck, Option-cases, ◌⊎◌, inl, inr,
  min, arith, [], ◌∷◌,
}
use api_gateway.Http.Text.{parse_hex}
use api_gateway.Http.Parser.State.{
  chunked_body, ChunkPhase, size_line, chunk_data, trailer, chunk_end, HttpParser, check_size_limit,
  consume_line, extract_line, line_of,
}
use api_gateway.Http.Parser.Bodies.{
  without_extension, begin_chunk, size_round, end_of_chunk, read_chunk, data_round, trailer_round,
  chunk_case, chunked_round, process_chunked,
}
use api_gateway.Http.Parser.Process.{after_switch, process_round, process, parse}
use api_gateway.Http.Parser.Totality.{
  pending, consume_partial-pending, consume_partial_keeps, process_chunked_lem,
}

-- No fuel suffices.
abbrev pub Stalls : HttpParser → Type 0
Stalls p = (fuel : ℕ) → process fuel p ≡ none

-- A chunked parser that still has pending bytes when its loop has given up.
abbrev pub IsStalled : HttpParser → Type 0
IsStalled q = (q.state ≡ chunked_body) × (q.partial ≢ [])

pub begin_chunk_gives_up : (p q : HttpParser) → begin_chunk p ≡ done q → q.state ≢ chunked_body
unfolding begin_chunk check_size_limit
begin_chunk_gives_up p q e = ground arith

size_round_gives_up : (p q : HttpParser) → size_round p ≡ done q → q.state ≡ chunked_body → q ≡ p
unfolding size_round
size_round_gives_up p q e s = elim (Option-cases (extract_line p)) [
  | inl h ↦ ground arith
  | inr (line, h) ↦ elim (Option-cases (parse_hex (without_extension line))) [
    | inl k ↦ ground arith
    | inr (sz, k) ↦
        let r = consume_line line (record p { current_chunk_size = sz }) in
        ground (arith, begin_chunk_gives_up r q)
  ]
]

data_round_gives_up :
    (p q : HttpParser)
    → data_round p ≡ done q
    → q.state ≡ chunked_body
    → (q ≡ p) ⊎ (length q.partial ≡ 0)
unfolding data_round end_of_chunk read_chunk check_size_limit
data_round_gives_up p q e s = ground (
  arith,
  consume_partial-pending (min (pending p) (p.current_chunk_size - p.current_chunk_read)) p,
  consume_partial_keeps (min (pending p) (p.current_chunk_size - p.current_chunk_read)) p,
)

trailer_round_gives_up : (p q : HttpParser) → trailer_round p ≡ done q → q ≡ p
unfolding trailer_round
trailer_round_gives_up p q e = ground arith

chunk_case_gives_up :
    (phase : ChunkPhase) (p q : HttpParser)
    → chunk_case phase p ≡ done q
    → q.state ≡ chunked_body
    → (q ≡ p) ⊎ (length q.partial ≡ 0)
unfolding chunk_case
chunk_case_gives_up size_line p q e s = inl (size_round_gives_up p q e s)
chunk_case_gives_up chunk_data p q e s = data_round_gives_up p q e s
chunk_case_gives_up trailer p q e s = inl (trailer_round_gives_up p q e)
chunk_case_gives_up chunk_end p q e s = ground arith

pub nil_of_length : (s : Bytes) → length s ≡ 0 → s ≡ []
nil_of_length [] h = refl
nil_of_length (c ∷ cs) h = absurd (omega arith)

-- A loop that gives up with bytes pending has done nothing in its last round.
pub chunked_round_gives_up :
    (p q : HttpParser) → chunked_round p ≡ done q → IsStalled q → chunked_round q ≡ done q
unfolding chunked_round
chunked_round_gives_up p q e s =
    ground (arith, chunk_case_gives_up p.chunk_phase p q, nil_of_length q.partial)

process_chunked_again :
    (p : HttpParser)
    → IsStalled (process_chunked p)
    → process_chunked (process_chunked p) ≡ process_chunked p
process_chunked_again p s =
    let q = process_chunked p in
    let (r, last) = loop_last chunked_round (suc (pending p)) p q (process_chunked_lem p) in
    let again : chunked_round q ≡ done q = chunked_round_gives_up r q last s in
    cc (process_chunked_lem q, loop-done chunked_round (pending q) q q again)

is_empty_of_ne : (s : Bytes) → s ≢ [] → is_empty s ≡ false
is_empty_of_ne [] h = absurd (h refl)
is_empty_of_ne (c ∷ cs) h = refl

pub process_round_chunked :
    (p : HttpParser)
    → p.state ≡ chunked_body
    → process_round p ≡ after_switch (process_chunked p).state (process_chunked p)
unfolding process_round
process_round_chunked p e = rw e

pub IsStalled-more : (q : HttpParser) → IsStalled q → after_switch q.state q ≡ more q
IsStalled-more q s = rw (s.0, is_empty_of_ne q.partial s.1)

stalled_spins : (q : HttpParser) → IsStalled q → process_chunked q ≡ q → process_round q ≡ more q
stalled_spins q s again = process_round_chunked q s.0 ∙ rw again (IsStalled-more q s)

-- Where the loop over the chunks gives up with bytes still pending, `process` never returns,
-- whatever the fuel: its loop calls the same step again, which changes nothing.
pub process-Stalls :
    (p : HttpParser) → p.state ≡ chunked_body → IsStalled (process_chunked p) → Stalls p
unfolding process loop
process-Stalls p e s zero = refl
process-Stalls p e s (suc fuel) =
    loop-more process_round fuel p (process_chunked p)
      (process_round_chunked p e ∙ IsStalled-more (process_chunked p) s)
    ∙ loop_stuck process_round (process_chunked p)
        (stalled_spins (process_chunked p) s (process_chunked_again p s)) fuel

extract_line-none : (p : HttpParser) → find_char 13 p.partial ≡ none → extract_line p ≡ none
unfolding extract_line
extract_line-none p h = rw (h, line_of)

size_line_waits :
    (p : HttpParser)
    → p.state ≡ chunked_body
    → p.chunk_phase ≡ size_line
    → find_char 13 p.partial ≡ none
    → chunked_round p ≡ done p
unfolding chunked_round chunk_case size_round
size_line_waits p e s h = ground (arith, extract_line-none p h)

size_line_kept :
    (p : HttpParser)
    → p.state ≡ chunked_body
    → p.chunk_phase ≡ size_line
    → find_char 13 p.partial ≡ none
    → process_chunked p ≡ p
size_line_kept p e s h =
    cc (process_chunked_lem p, loop-done chunked_round (pending p) p p (size_line_waits p e s h))

-- While a chunk's size line is awaited, a call of `parse` after which some bytes but no carriage
-- return are pending does not return, with any fuel.
pub parse_size_line_hangs :
    (p : HttpParser) (input : Bytes) (fuel : ℕ)
    → p.state ≡ chunked_body
    → p.chunk_phase ≡ size_line
    → find_char 13 (p.partial ++ input) ≡ none
    → p.partial ++ input ≢ []
    → parse fuel input p ≡ none
unfolding parse
parse_size_line_hangs p input fuel e s h some_bytes =
    let fed = record p { partial = p.partial ++ input } in
    let kept : process_chunked fed ≡ fed = size_line_kept fed e s h in
    let stuck : process fuel fed ≡ none = process-Stalls fed e (rw kept (e, some_bytes)) fuel in
    ground arith
