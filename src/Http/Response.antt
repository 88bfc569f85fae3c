-- ===== src/Http/Response.antt =====
-- Responses: include/gateway/http/response.h and src/http/response.cpp. `std::map` is a list of
-- pairs in the order of the keys, since it is printed.
pub mod Numbers
pub mod Reading
mod Tests
use api_gateway.Prelude.{
  text_less, ℕ, Bool, true, false, List, [], ◌∷◌, ◌++◌, Bytes, bytes, crlf, text_eq, length, ltb,
  ◌||◌, if◌then◌else◌,
}
use api_gateway.Prelude.Decimal.{decimal, to_string}
use api_gateway.Prelude.Int.{ℤ, pos}

pub record HttpResponse : Type 0 where
  pub status_code : ℤ
  pub status_text : Bytes
  pub headers : List (Bytes × Bytes)
  pub body : Bytes

-- `HttpResponse resp;`
abbrev pub new_response : HttpResponse
new_response = record { status_code = pos 200; status_text = bytes "OK"; headers = []; body = [] }

-- `headers[key] = value`
unfoldable pub put_header : Bytes → Bytes → List (Bytes × Bytes) → List (Bytes × Bytes)
unfolding text_less
put_header key value [] = (key, value) ∷ []
put_header key value ((k, v) ∷ m) =
    if text_less key k
    then (key, value) ∷ (k, v) ∷ m
    else if text_eq key k
    then (key, value) ∷ m
    else (k, v) ∷ put_header key value m

unfoldable pub has_key : Bytes → List (Bytes × Bytes) → Bool
has_key key [] = false
has_key key ((k, v) ∷ m) = text_eq k key || has_key key m

unfoldable pub header_lines : List (Bytes × Bytes) → Bytes
header_lines [] = []
header_lines ((k, v) ∷ m) = k ++ (bytes ": " ++ (v ++ (crlf ++ header_lines m)))

-- The status line and the headers, without the empty line.
unfoldable pub printed_head : HttpResponse → Bytes
unfolding header_lines has_key
printed_head r =
    bytes "HTTP/1.1 "
    ++ (to_string r.status_code
        ++ (bytes " "
            ++ (r.status_text
                ++ (crlf
                    ++ (header_lines r.headers
                        ++ ((if has_key (bytes "Content-Length") r.headers
                              then []
                              else bytes "Content-Length: " ++ (decimal (length r.body) ++ crlf))
                            ++ (if has_key (bytes "Connection") r.headers
                                then []
                                else bytes "Connection: close" ++ crlf)))))))

-- `to_string`
unfoldable pub print : HttpResponse → Bytes
unfolding printed_head
print r = printed_head r ++ (crlf ++ r.body)

unfoldable pub make_common : ℤ → Bytes → Bool → HttpResponse
unfolding put_header
make_common code text keep_alive = record new_response {
  status_code = code;
  status_text = text;
  headers =
      put_header (bytes "Connection") (if keep_alive then bytes "keep-alive" else bytes "close") [];
}

unfoldable pub make_400 : Bool → HttpResponse
unfolding make_common
make_400 keep_alive = record (make_common (pos 400) (bytes "Bad Request") keep_alive) {
  body = bytes "Bad Request";
}

unfoldable pub make_404 : Bool → HttpResponse
unfolding make_common
make_404 keep_alive = record (make_common (pos 404) (bytes "Not Found") keep_alive) {
  body = bytes "Not Found";
}

unfoldable pub make_502 : Bool → HttpResponse
unfolding make_common
make_502 keep_alive = record (make_common (pos 502) (bytes "Bad Gateway") keep_alive) {
  body = bytes "Bad Gateway";
}
