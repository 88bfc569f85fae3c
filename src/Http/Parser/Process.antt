-- ===== src/Http/Parser/Process.antt =====
-- `process`, the dispatch loop, and `parse`. The loop takes fuel, and its result is `none` where
-- the fuel runs out: the source's loop has states in which it never ends.
use api_gateway.Prelude.{
  ℕ, ◌-◌, Bool, true, false, Option, none, some, ◌++◌, Bytes, is_empty, length, ltb, if◌then◌else◌,
  Round, done, more, loop,
}
use api_gateway.Http.Parser.State.{
  State, request_line, headers, body, chunked_body, complete, error, HttpParser, check_size_limit,
}
use api_gateway.Http.Parser.Lines.{process_request_line, process_headers}
use api_gateway.Http.Parser.Bodies.{process_body, process_chunked}

-- The tests behind the `switch`.
abbrev pub after_switch : State → HttpParser → Round HttpParser
after_switch request_line p = done p
after_switch headers p = done p
after_switch body p = if is_empty p.partial then done p else more p
after_switch chunked_body p = if is_empty p.partial then done p else more p
after_switch complete p = more p
after_switch error p = more p

-- The request line goes on to the headers at once.
abbrev pub after_request_line : State → HttpParser → Round HttpParser
after_request_line headers p = more p
after_request_line s p = after_switch s p

abbrev pub process_case : State → HttpParser → Round HttpParser
process_case request_line p =
    after_request_line (process_request_line p).state (process_request_line p)
process_case headers p = after_switch (process_headers p).state (process_headers p)
process_case body p = after_switch (process_body p).state (process_body p)
process_case chunked_body p = after_switch (process_chunked p).state (process_chunked p)
process_case complete p = done p
process_case error p = done p

unfoldable pub process_round : HttpParser → Round HttpParser
process_round p = process_case p.state p

unfoldable pub process : ℕ → HttpParser → Option HttpParser
unfolding process_round
process fuel p = loop fuel process_round p

-- What `parse` returns, given the parser that `process` has left.
unfoldable pub parse_result : Bytes → ℕ → HttpParser → HttpParser × ℕ
parse_result input old_raw_size p =
    if (check_size_limit p).1
    then (p, if ltb 0 (length input) then length input else length p.raw - old_raw_size)
    else ((check_size_limit p).0, 0)

abbrev pub is_over : State → Bool
is_over complete = true
is_over error = true
is_over _ = false

unfoldable pub parse : ℕ → Bytes → HttpParser → Option (HttpParser × ℕ)
unfolding parse_result
parse fuel input p =
    if is_over p.state
    then some (p, 0)
    else elim (process fuel (record p { partial = p.partial ++ input })) [
      | none ↦ none
      | some q ↦ some (parse_result input (length p.raw) q)
    ]
