-- ===== src/Http/Response/Tests.antt =====
-- Runs of the printing of responses.
use api_gateway.Prelude.{◌≡◌, refl, true, some, [], ◌∷◌, bytes, take, drop, text_eq}
use api_gateway.Prelude.Int.{pos}
use api_gateway.Prelude.Decimal.{to_string}
use api_gateway.Http.Response.{HttpResponse, print, printed_head, make_common, make_502}
use api_gateway.Http.Response.Numbers.{is_plain}
use api_gateway.Http.Response.Reading.{with_body, print-pieces}
use api_gateway.Proxy.BackendConnection.{BackendConnection, got, quiet, recv_all, touch}

abbrev conn : BackendConnection
conn = record { fd = pos 5; host = bytes "h"; port = pos 80; last_activity = 0 }

abbrev response : HttpResponse
response = with_body (make_common (pos 502) (bytes "Bad Gateway") true) (bytes "Bad Gateway")

same_response : response ≡ make_502 true
unfolding make_502
same_response = refl

print-pieces_example :
    recv_all 7 (got (take 70 (print response)) ∷ got (drop 70 (print response)) ∷ quiet ∷ []) conn
    ≡ some (touch 7 conn, print response)
unfolding print printed_head make_common is_plain to_string text_eq
print-pieces_example =
    print-pieces 7 (pos 502) (bytes "Bad Gateway") (bytes "Bad Gateway") true
      (take 70 (print response)) (drop 70 (print response) ∷ []) (quiet ∷ []) conn refl refl refl
      ((λ e. cc e), tt)
