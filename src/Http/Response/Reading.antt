-- ===== src/Http/Response/Reading.antt =====
-- Responses as a reader gets them that frames them the way `recv_all` of src/proxy/backend.cpp does.
use api_gateway.Proxy.BackendConnection.{value_at, is_blank_space}
use api_gateway.Http.Response.Numbers.{
  all_digits, decimal-value, decimal-all_digits, all_digits-is_plain, take_while-all_digits,
  find-line,
}
use api_gateway.Http.Text.{digits_value, take_while, drop_while, is_digit}
use api_gateway.Prelude.Slices.{drop-append-beyond}
use api_gateway.Prelude.{joined, ◌==◌, Bool-cases, inl, inr, arith}
use api_gateway.Proxy.BackendConnection.Framing.{IsFramed, recv_all-pieces}
use api_gateway.Proxy.BackendConnection.{
  announced, value_at, recv_all, got, touch, is_open, RecvAnswer, BackendConnection,
}
use api_gateway.Http.Response.Numbers.{
  find-plain, find-line, append-is_plain, to_string-is_plain, is_plain, decimal-value,
  decimal-all_digits, all_digits-is_plain, take_while-all_digits,
}
use api_gateway.Prelude.{length-append}
use api_gateway.Prelude.{
  ℕ, ◌+◌, ◌≡◌, ◌≢◌, refl, ap, sym, ◌∙◌, Bool, true, false, some, List, [], ◌∷◌, ◌++◌, Bytes, bytes,
  crlf, double_crlf, find, starts_with, text_eq, All, map, length, append_assoc, append-nil,
}
use api_gateway.Prelude.Int.{ℤ}
use api_gateway.Prelude.Slices.{drop-append-beyond}
use api_gateway.Prelude.Decimal.{decimal, to_string}
use api_gateway.Http.Text.{digits_value, take_while, drop_while, is_digit}
use api_gateway.Http.Response.{
  HttpResponse, print, printed_head, make_common, put_header, has_key, header_lines,
}
use api_gateway.Http.Response.Numbers.{
  is_plain, decimal-value, decimal-all_digits, all_digits-is_plain, take_while-all_digits,
  to_string-is_plain, append-is_plain, find-plain, find-line,
}
use api_gateway.Proxy.BackendConnection.{
  BackendConnection, RecvAnswer, got, is_open, announced, value_at, recv_all, touch,
}
use api_gateway.Proxy.BackendConnection.Framing.{IsFramed, recv_all-pieces}

-- A response as `make_400` and the others build it, with any code, text and body.
abbrev pub with_body : HttpResponse → Bytes → HttpResponse
with_body r body = record r { body = body }

abbrev status_line : ℤ → Bytes → Bytes
status_line code text = bytes "HTTP/1.1 " ++ (to_string code ++ (bytes " " ++ text))

abbrev connection_line : Bool → Bytes
connection_line true = bytes "Connection: keep-alive"
connection_line false = bytes "Connection: close"

abbrev rest_of : Bool → ℕ → Bytes
rest_of keep_alive n =
    crlf ++ (connection_line keep_alive ++ (crlf ++ (bytes "Content-Length: " ++ decimal n)))

print-lines :
    (code : ℤ) (text body : Bytes) (keep_alive : Bool)
    → print (with_body (make_common code text keep_alive) body)
      ≡ (status_line code text ++ rest_of keep_alive (length body)) ++ (double_crlf ++ body)
unfolding print printed_head make_common text_eq put_header has_key header_lines
print-lines code text body true = simp (append_assoc, append-nil)
print-lines code text body false = simp (append_assoc, append-nil)

status_line-is_plain :
    (code : ℤ) (text : Bytes) → is_plain text ≡ true → is_plain (status_line code text) ≡ true
unfolding is_plain
status_line-is_plain code text h =
    append-is_plain (bytes "HTTP/1.1 ") (to_string code ++ (bytes " " ++ text)) refl
      (append-is_plain (to_string code) (bytes " " ++ text) (to_string-is_plain code) h)

abbrev last_line : ℕ → Bytes
last_line n = crlf ++ (bytes "Content-Length: " ++ decimal n)

-- The text from the last line of the head on, and the place of the empty line in it.
abbrev onward : ℕ → Bytes → Bytes
onward n body = crlf ++ (bytes "Content-Length: " ++ (decimal n ++ (double_crlf ++ body)))

abbrev at_size : ℕ → ℕ
at_size n = 2 + (16 + (length (decimal n) + 0))

-- The first empty line is the end of the head.
rest-cut :
    (keep_alive : Bool) (n : ℕ) (body : Bytes)
    → find double_crlf (rest_of keep_alive n ++ (double_crlf ++ body))
      ≡ some (length (rest_of keep_alive n))
unfolding is_plain find starts_with
rest-cut keep_alive n body =
    let d = decimal n in
    let digits = all_digits-is_plain d (decimal-all_digits n) in
    let tail : Bytes = d ++ (double_crlf ++ body) in
    let at_digits = find-plain d (10 ∷ 13 ∷ 10 ∷ []) (double_crlf ++ body) 0 digits refl in
    go keep_alive (
      find-line (10 ∷ 13 ∷ 10 ∷ []) (bytes "Content-Length: " ++ tail) (16 + (length d + 0)) refl (
        find-plain (bytes "Content-Length: ") (10 ∷ 13 ∷ 10 ∷ []) tail (length d + 0) refl
          at_digits))
  where
    go :
        (keep_alive : Bool)
        → find double_crlf (onward n body) ≡ some (at_size n)
        → find double_crlf (rest_of keep_alive n ++ (double_crlf ++ body))
          ≡ some (length (rest_of keep_alive n))
    go true e =
        find-line (10 ∷ 13 ∷ 10 ∷ []) (connection_line true ++ onward n body)
          (length (connection_line true) + at_size n) refl
          (find-plain (connection_line true) (10 ∷ 13 ∷ 10 ∷ []) (onward n body) (at_size n) refl e)
        ∙ ap some (omega arith)
    go false e =
        find-line (10 ∷ 13 ∷ 10 ∷ []) (connection_line false ++ onward n body)
          (length (connection_line false) + at_size n) refl
          (find-plain (connection_line false) (10 ∷ 13 ∷ 10 ∷ []) (onward n body) (at_size n) refl
            e)
        ∙ ap some (omega arith)

drop_while-all_digits : (s : Bytes) → all_digits s ≡ true → drop_while is_blank_space s ≡ s
unfolding drop_while all_digits is_digit
drop_while-all_digits [] h = refl
drop_while-all_digits (c ∷ s) h = elim (Bool-cases (c == 32)) [
  | inl blank ↦ ground (arith, h)
  | inr other ↦ rw other refl
]

-- The digits are read where the header begins.
value_at-lines :
    (before : Bytes) (n : ℕ)
    → value_at (length before) (before ++ (crlf ++ (bytes "Content-Length: " ++ decimal n))) ≡ n
unfolding value_at drop_while
value_at-lines before n =
    ap (λ t. digits_value 0 (take_while is_digit (drop_while is_blank_space t)))
      (drop-append-beyond 17 before (crlf ++ (bytes "Content-Length: " ++ decimal n)))
    ∙ ap (λ t. digits_value 0 (take_while is_digit t))
        (drop_while-all_digits (decimal n) (decimal-all_digits n))
    ∙ ap (digits_value 0) (take_while-all_digits (decimal n) (decimal-all_digits n))
    ∙ decimal-value n

found_length :
    (status : Bytes) (keep_alive : Bool) (n : ℕ)
    → is_plain status ≡ true
    → find (crlf ++ bytes "Content-Length:") (status ++ rest_of keep_alive n)
      ≡ some (length (status ++ (crlf ++ connection_line keep_alive)))
unfolding is_plain find starts_with
found_length status true n h =
    find-plain status (10 ∷ bytes "Content-Length:") _ _ h (
      find-line (10 ∷ bytes "Content-Length:") (connection_line true ++ last_line n) _ refl (
        find-plain (connection_line true) (10 ∷ bytes "Content-Length:") (last_line n) 0 refl refl))
    ∙ ap some (omega (arith, length-append status (crlf ++ connection_line true)))
found_length status false n h =
    find-plain status (10 ∷ bytes "Content-Length:") _ _ h (
      find-line (10 ∷ bytes "Content-Length:") (connection_line false ++ last_line n) _ refl (
        find-plain (connection_line false) (10 ∷ bytes "Content-Length:") (last_line n) 0 refl
          refl))
    ∙ ap some (omega (arith, length-append status (crlf ++ connection_line false)))

-- The length of the body is read from the head.
rest-announced :
    (status : Bytes) (keep_alive : Bool) (n : ℕ)
    → is_plain status ≡ true
    → announced (status ++ rest_of keep_alive n) ≡ n
unfolding announced
rest-announced status keep_alive n h =
    let before = status ++ (crlf ++ connection_line keep_alive) in
    rw (found_length status keep_alive n h, announced)
      (ap (value_at (length before)) (regroup keep_alive) ∙ value_at-lines before n)
  where
    regroup :
        (keep_alive : Bool)
        → status ++ rest_of keep_alive n
          ≡ (status ++ (crlf ++ connection_line keep_alive))
            ++ (crlf ++ (bytes "Content-Length: " ++ decimal n))
    regroup true = sym (append_assoc status (crlf ++ connection_line true) _)
    regroup false = sym (append_assoc status (crlf ++ connection_line false) _)

framed :
    (code : ℤ) (text body : Bytes) (keep_alive : Bool)
    → is_plain text ≡ true
    → IsFramed (status_line code text ++ rest_of keep_alive (length body)) body
framed code text body keep_alive h =
    let status = status_line code text in
    let rest = rest_of keep_alive (length body) in
    let plain = status_line-is_plain code text h in
    record {
      cut =
          ap (find double_crlf) (append_assoc status rest (double_crlf ++ body))
          ∙ find-plain status (10 ∷ 13 ∷ 10 ∷ []) (rest ++ (double_crlf ++ body)) (length rest)
              plain (rest-cut keep_alive (length body) body)
          ∙ ap some (sym (length-append status rest));
      size = rest-announced status keep_alive (length body) plain;
    }

-- A printed response of the kind that `make_400` and the others build, with any code, any body,
-- and a text without a carriage return, arriving in any pieces of which none after the first one
-- is empty, is read back whole by `recv_all` on an open connection.
pub print-pieces :
    (now : ℕ) (code : ℤ) (text body : Bytes) (keep_alive : Bool) (s : Bytes) (ss : List Bytes)
    (more : List RecvAnswer) (c : BackendConnection)
    → is_open c.fd ≡ true
    → is_plain text ≡ true
    → s ++ joined ss ≡ print (with_body (make_common code text keep_alive) body)
    → All (λ t. t ≢ []) ss
    → recv_all now (got s ∷ (map got ss ++ more)) c
      ≡ some (touch now c, print (with_body (make_common code text keep_alive) body))
print-pieces now code text body keep_alive s ss more c o plain e pieces =
    let lines = print-lines code text body keep_alive in
    recv_all-pieces now (status_line code text ++ rest_of keep_alive (length body)) body s ss more c
      o (framed code text body keep_alive plain) (e ∙ lines) pieces
    ∙ ap (λ t. some (touch now c, t)) (sym lines)
