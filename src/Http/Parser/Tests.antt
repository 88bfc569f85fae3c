-- ===== src/Http/Parser/Tests.antt =====
-- Runs of the incremental parser.
use api_gateway.Http.Parser.Conservation.{parse-content}
use api_gateway.Http.Parser.Ending.{Ends, process-Ends_or_Hangs}
use api_gateway.Http.Parser.Waiting.{Hangs}
use api_gateway.Http.Parser.Stalling.{parse_size_line_hangs}
use api_gateway.Prelude.{
  length, ◌⊎◌, true, [], ℕ, ◌≡◌, refl, ◌++◌, Bytes, bytes, crlf, starts_with, find, find_char,
  text_eq, loop, Option, some, none,
}
use api_gateway.Prelude.Map.{lookup, insert}
use api_gateway.Http.Text.{
  ascii_to_lower, to_lower, str_iequal, contains_word, is_blank, drop_while, take_while,
  parse_int_safe, parse_hex, digits_value, is_digit, is_space,
}
use api_gateway.Http.Message.{parse_request_line, add_header, parse_http_request}
use api_gateway.Http.Parser.State.{
  chunked_body, HttpParser, http_parser, check_size_limit, consume_partial, extract_line,
  consume_line,
}
use api_gateway.Http.Parser.Lines.{
  process_request_line, finalize_headers, header_round, process_headers,
}
use api_gateway.Http.Parser.Bodies.{process_body, chunked_round, process_chunked}
use api_gateway.Http.Parser.Process.{process, parse}

http_parser_runs : Unit {0}
unfolding starts_with find find_char text_eq loop lookup insert to_lower str_iequal contains_word
    is_blank drop_while parse_int_safe parse_hex parse_request_line add_header check_size_limit
    consume_partial extract_line consume_line process_request_line finalize_headers header_round
    process_headers process_body chunked_round process_chunked process parse digits_value take_while
    is_digit is_space ascii_to_lower parse_http_request
http_parser_runs = tt

abbrev post : Bytes
post =
    bytes "POST /a HTTP/1.1"
    ++ (crlf ++ (bytes "Content-Length: 3" ++ (crlf ++ (crlf ++ bytes "abcGET"))))

abbrev parsed_state : Option HttpParser → Bytes
parsed_state none = bytes "none"
parsed_state (some p) = p.request.body

post_runs : parsed_state (process 9 (record (http_parser 1000) { partial = post })) ≡ bytes "abc"
unfolding http_parser_runs
post_runs = refl

abbrev got : Option (HttpParser × ℕ) → HttpParser
got none = http_parser 0
got (some (p, n)) = p

-- A parser that has read the head of a chunked message.
abbrev awaiting_size : HttpParser
awaiting_size = record (http_parser 1000) { state = chunked_body; is_chunked = true }

abbrev parsed : HttpParser
parsed = got (parse 9 post (http_parser 1000))

parse-content_example : parsed.raw ++ parsed.partial ≡ ([] ++ []) ++ post
unfolding http_parser_runs
parse-content_example = parse-content 9 post (http_parser 1000) parsed (length post) refl refl

process-Ends_or_Hangs_example : Ends 4 awaiting_size ⊎ Hangs awaiting_size
process-Ends_or_Hangs_example = process-Ends_or_Hangs awaiting_size

parse_size_line_hangs_example : parse 1000 (bytes "1") awaiting_size ≡ none
unfolding find_char
parse_size_line_hangs_example =
    parse_size_line_hangs awaiting_size (bytes "1") 1000 refl refl refl (λ e. cc e)
