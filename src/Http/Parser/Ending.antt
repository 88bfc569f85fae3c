-- ===== src/Http/Parser/Ending.antt =====
-- When the dispatch loop of `process` ends within four rounds, and when it never ends.
use api_gateway.Prelude.{
  ℕ, suc, ◌+◌, ◌-◌, ◌≡◌, ◌≢◌, refl, ◌∙◌, true, some, Bytes, length, is_empty, done, more,
  after_round, loop_inv, loop-done, loop-more, loop, loop-suc, Option-cases, Bool-cases, ◌⊎◌, inl,
  inr, min, arith, [], ◌∷◌,
}
use api_gateway.Prelude.Int.{to_size}
use api_gateway.Http.Text.{parse_hex}
use api_gateway.Http.Parser.State.{
  request_line, headers, body, chunked_body, complete, error, State, ChunkPhase, size_line,
  chunk_data, trailer, chunk_end, HttpParser, check_size_limit, consume_line, extract_line,
}
use api_gateway.Http.Parser.Lines.{process_request_line, process_headers}
use api_gateway.Http.Parser.Bodies.{
  process_body, read_body, finish_body, without_extension, begin_chunk, size_round, end_of_chunk,
  read_chunk, data_round, trailer_round, chunk_case, chunked_round, process_chunked,
}
use api_gateway.Http.Parser.Process.{
  after_switch, after_request_line, is_over, process_round, process,
}
use api_gateway.Http.Parser.Totality.{
  pending, consume_partial-pending, consume_partial_keeps, process_chunked_lem,
}
use api_gateway.Http.Parser.Waiting.{Reaches, Hangs, Hangs-more, process_chunked-IsCutOff}
use api_gateway.Http.Parser.Stalling.{
  IsStalled-more, process-Stalls, nil_of_length, process_round_chunked,
}

-- The fuel suffices.
abbrev pub Ends : ℕ → HttpParser → Type 0
Ends n p = (q : HttpParser) × (process n p ≡ some q)

abbrev Fate : ℕ → HttpParser → Type 0
Fate n p = Ends n p ⊎ Hangs p

Ends-at_once : (p q : HttpParser) → process_round p ≡ done q → Ends 1 p
unfolding process
Ends-at_once p q e = (q, loop-done process_round 0 p q e)

Ends-suc : (n : ℕ) (p : HttpParser) → Ends n p → Ends (suc n) p
unfolding process
Ends-suc n p (q, e) = (q, loop-suc process_round n p q e)

Fate-suc : (n : ℕ) (p : HttpParser) → Fate n p → Fate (suc n) p
Fate-suc n p (inl e) = inl (Ends-suc n p e)
Fate-suc n p (inr s) = inr s

Fate-more : (n : ℕ) (p q : HttpParser) → process_round p ≡ more q → Fate n q → Fate (suc n) p
unfolding process loop
Fate-more n p q e (inl (r, h)) = inl (r, loop-more process_round n p q e ∙ h)
Fate-more n p q e (inr s) = inr (Hangs-more p q e s)

Fate-over : (p : HttpParser) → is_over p.state ≡ true → Fate 1 p
unfolding process_round
Fate-over p h = inl (Ends-at_once p p (ground arith))

-- Where the loop over the chunks can leave the parser.
IsAfterChunks : HttpParser → Type 0
IsAfterChunks q = (q.state ≡ chunked_body) ⊎ (is_over q.state ≡ true)

begin_chunk_after : (p : HttpParser) → IsAfterChunks p → IsAfterChunks (after_round (begin_chunk p))
unfolding begin_chunk check_size_limit IsAfterChunks
begin_chunk_after p h = ground arith

size_round_after : (p : HttpParser) → IsAfterChunks p → IsAfterChunks (after_round (size_round p))
unfolding size_round IsAfterChunks consume_line
size_round_after p h = elim (Option-cases (extract_line p)) [
  | inl e ↦ ground arith
  | inr (line, e) ↦ elim (Option-cases (parse_hex (without_extension line))) [
    | inl k ↦ ground arith
    | inr (sz, k) ↦ ground (
      arith,
      begin_chunk_after (consume_line line (record p { current_chunk_size = sz })),
      consume_partial_keeps (length line + 2) (record p { current_chunk_size = sz }),
    )
  ]
]

data_round_after : (p : HttpParser) → IsAfterChunks p → IsAfterChunks (after_round (data_round p))
unfolding data_round end_of_chunk read_chunk check_size_limit IsAfterChunks
data_round_after p h = ground (
  arith,
  consume_partial_keeps 2 p,
  consume_partial_keeps (min (length p.partial) (p.current_chunk_size - p.current_chunk_read)) p,
)

trailer_round_after :
    (p : HttpParser) → IsAfterChunks p → IsAfterChunks (after_round (trailer_round p))
unfolding trailer_round consume_line IsAfterChunks
trailer_round_after p h = elim (Option-cases (extract_line p)) [
  | inl e ↦ ground (arith, consume_partial_keeps 2 p)
  | inr (line, e) ↦
      ground (arith, consume_partial_keeps 2 p, consume_partial_keeps (length line + 2) p)
]

chunk_case_after :
    (phase : ChunkPhase) (p : HttpParser)
    → IsAfterChunks p
    → IsAfterChunks (after_round (chunk_case phase p))
unfolding chunk_case IsAfterChunks
chunk_case_after size_line p h = size_round_after p h
chunk_case_after chunk_data p h = data_round_after p h
chunk_case_after trailer p h = trailer_round_after p h
chunk_case_after chunk_end p h = inr refl

chunked_round_after :
    (p : HttpParser) → IsAfterChunks p → IsAfterChunks (after_round (chunked_round p))
unfolding chunked_round
chunked_round_after p h = ground (arith, chunk_case_after p.chunk_phase p h)

process_chunked_after :
    (p : HttpParser) → p.state ≡ chunked_body → IsAfterChunks (process_chunked p)
unfolding IsAfterChunks
process_chunked_after p e =
    loop_inv IsAfterChunks chunked_round (chunked_round_after) (suc (pending p)) p
      (process_chunked p) (process_chunked_lem p) (inl e)

partial_cases : (s : Bytes) → (s ≡ []) ⊎ (s ≢ [])
partial_cases [] = inl refl
partial_cases (c ∷ cs) = inr (λ e. cc)

Fate-chunked : (p : HttpParser) → p.state ≡ chunked_body → Fate 2 p
unfolding IsAfterChunks
Fate-chunked p e =
    let q = process_chunked p in
    let step = process_round_chunked p e in
    elim (process_chunked_after p e) [
      | inl still ↦ elim (partial_cases q.partial) [
        | inl empty ↦ inl (Ends-suc 1 p (Ends-at_once p q (step ∙ rw (still, empty))))
        | inr bytes ↦ inr (record {
          stuck = q;
          reached = Reaches.round (step ∙ IsStalled-more q (still, bytes)) Reaches.here;
          chunked = still;
          bytes_left = bytes;
          cut_off = process_chunked-IsCutOff p (still, bytes);
          never = process-Stalls p e (still, bytes);
        })
      ]
      | inr over ↦ Fate-more 1 p q (step ∙ ground arith) (Fate-over q over)
    ]

-- A body of known length is complete, or has taken all that was pending.
process_body_after :
    (p : HttpParser)
    → p.state ≡ body
    → ((process_body p).state ≡ complete)
      ⊎ (((process_body p).state ≡ body) × (length (process_body p).partial ≡ 0))
unfolding process_body read_body finish_body
process_body_after p e = ground (
  arith,
  consume_partial-pending (min (length p.partial) (to_size p.content_length - p.body_read)) p,
  consume_partial_keeps (min (length p.partial) (to_size p.content_length - p.body_read)) p,
)

process_round_body :
    (p : HttpParser)
    → p.state ≡ body
    → process_round p ≡ after_switch (process_body p).state (process_body p)
unfolding process_round
process_round_body p e = rw e

Fate-body : (p : HttpParser) → p.state ≡ body → Fate 2 p
Fate-body p e =
    let q = process_body p in
    let step = process_round_body p e in
    elim (process_body_after p e) [
      | inl over ↦ Fate-more 1 p q (step ∙ ground arith) (Fate-over q (ground arith))
      | inr (still, empty) ↦
          inl (Ends-suc 1 p (Ends-at_once p q (step ∙ rw (still, nil_of_length q.partial empty))))
    ]

-- What follows the headers.
Fate-switch :
    (p q : HttpParser) (s : State) → q.state ≡ s → process_round p ≡ after_switch s q → Fate 3 p
Fate-switch p q request_line e step = inl (Ends-suc 2 p (Ends-suc 1 p (Ends-at_once p q step)))
Fate-switch p q headers e step = inl (Ends-suc 2 p (Ends-suc 1 p (Ends-at_once p q step)))
Fate-switch p q body e step = elim (Bool-cases (is_empty q.partial)) [
  | inl empty ↦ inl (Ends-suc 2 p (Ends-suc 1 p (Ends-at_once p q (step ∙ rw empty))))
  | inr bytes ↦ Fate-more 2 p q (step ∙ rw bytes) (Fate-body q e)
]
Fate-switch p q chunked_body e step = elim (Bool-cases (is_empty q.partial)) [
  | inl empty ↦ inl (Ends-suc 2 p (Ends-suc 1 p (Ends-at_once p q (step ∙ rw empty))))
  | inr bytes ↦ Fate-more 2 p q (step ∙ rw bytes) (Fate-chunked q e)
]
Fate-switch p q complete e step = Fate-more 2 p q step (Fate-suc 1 q (Fate-over q (rw e)))
Fate-switch p q error e step = Fate-more 2 p q step (Fate-suc 1 q (Fate-over q (rw e)))

Fate-headers : (p : HttpParser) → p.state ≡ headers → Fate 3 p
unfolding process_round
Fate-headers p e = Fate-switch p (process_headers p) (process_headers p).state refl (rw e)

Fate-line :
    (p q : HttpParser) (s : State)
    → q.state ≡ s
    → process_round p ≡ after_request_line s q
    → Fate 4 p
Fate-line p q headers e step = Fate-more 3 p q step (Fate-headers q e)
Fate-line p q request_line e step = Fate-suc 3 p (Fate-switch p q request_line e step)
Fate-line p q body e step = Fate-suc 3 p (Fate-switch p q body e step)
Fate-line p q chunked_body e step = Fate-suc 3 p (Fate-switch p q chunked_body e step)
Fate-line p q complete e step = Fate-suc 3 p (Fate-switch p q complete e step)
Fate-line p q error e step = Fate-suc 3 p (Fate-switch p q error e step)

Fate-state : (p : HttpParser) (s : State) → p.state ≡ s → Fate 4 p
unfolding process_round
Fate-state p request_line e =
    Fate-line p (process_request_line p) (process_request_line p).state refl (rw e)
Fate-state p headers e = Fate-suc 3 p (Fate-headers p e)
Fate-state p body e = Fate-suc 3 p (Fate-suc 2 p (Fate-body p e))
Fate-state p chunked_body e = Fate-suc 3 p (Fate-suc 2 p (Fate-chunked p e))
Fate-state p complete e = Fate-suc 3 p (Fate-suc 2 p (Fate-suc 1 p (Fate-over p (rw e))))
Fate-state p error e = Fate-suc 3 p (Fate-suc 2 p (Fate-suc 1 p (Fate-over p (rw e))))

-- From every state of the parser, the dispatch loop of `process` ends within four rounds; or its
-- rounds lead to a chunked body with bytes pending, which hold no size line or trailer line that
-- `extract_line` finds, or are a single byte behind all the bytes of a chunk, and it never ends.
pub process-Ends_or_Hangs : (p : HttpParser) → Ends 4 p ⊎ Hangs p
process-Ends_or_Hangs p = Fate-state p p.state refl
