-- ===== src/Utils/Tests.antt =====
-- Runs of `recv_all_request`, and its theorem at a small request.
use api_gateway.Prelude.{
  Bytes, replicate, ◌<◌, ◌↔◌, find, starts_with, arith, refl, find, ◌≡◌, bytes, ◌∷◌, [],
}
use api_gateway.Prelude.Int.{pos}
use api_gateway.Utils.{
  effective_max, got, closed, returned, undefined, recv_all_request, request_loop, request_round,
  look_for_header, note_header, after_headers, too_long, note_found, find_length,
}
use api_gateway.Utils.Requests.{recv_all_request-undefined}

-- A head of sixteen bytes is looked through without harm.
short_head :
    recv_all_request (pos 100) (got (bytes "GET / HTTP/1.1\r\n\r\n") ∷ [])
    ≡ returned (bytes "GET / HTTP/1.1\r\n\r\n")
unfolding recv_all_request request_loop request_round look_for_header note_header effective_max
    after_headers too_long note_found find_length find starts_with
short_head = refl

too_big : recv_all_request (pos 3) (got (bytes "GET /") ∷ []) ≡ returned []
unfolding recv_all_request request_loop request_round look_for_header note_header effective_max
    after_headers too_long note_found find_length find starts_with
too_big = refl

-- A full piece of one letter, as the beginning of a long head.
abbrev full_piece : Bytes
full_piece = replicate 4096 b'a'

recv_all_request-undefined_example :
    (recv_all_request (pos 9000) (got full_piece ∷ got (bytes "b\r\n\r\n") ∷ closed ∷ [])
      ≡ undefined)
    ↔ (16 < 4097)
unfolding effective_max find starts_with
recv_all_request-undefined_example =
    recv_all_request-undefined (pos 9000) (full_piece ∷ []) (bytes "b\r\n\r\n") 4097 (closed ∷ [])
      (omega arith) (omega arith, tt) refl refl
