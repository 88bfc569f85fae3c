-- ===== src/Core/Gateway/Headers.antt =====
-- Where the headers of the filters come to stand in a backend's response.
use api_gateway.Prelude.{append-nil}
use api_gateway.Prelude.{[], ◌∷◌, false, bytes}
use api_gateway.Core.Gateway.Splicing.{contains}
use api_gateway.Prelude.Slices.{take-append-beyond, drop-append-beyond}
use api_gateway.Prelude.{take-append, drop-append}
use api_gateway.Prelude.{
  ℕ, ◌+◌, ◌≡◌, refl, ap, ◌∙◌, true, false, some, List, ◌++◌, Bytes, crlf, double_crlf, find, take,
  drop, length, append_assoc,
}
use api_gateway.Core.Gateway.Splicing.{
  has_conn, add_close, close_line, insert_at, extra_lines, add_extra,
}

insert_at-append :
    (n : ℕ) (head t rest : Bytes)
    → insert_at (length head + n) t (head ++ rest) ≡ head ++ insert_at n t rest
insert_at-append n head t rest =
    rw (take-append-beyond n head rest, drop-append-beyond n head rest)
      (append_assoc head (take n rest) (t ++ drop n rest))

insert_at-end :
    (head t rest : Bytes) → insert_at (length head) t (head ++ rest) ≡ head ++ (t ++ rest)
insert_at-end head t rest = rw (take-append head rest, drop-append head rest) refl

-- When the head of a backend's response names the Connection header, the headers of the filters
-- are put at the end of the head, and nothing else changes.
pub add_extra-named :
    (headers : List (Bytes × Bytes)) (raw_resp : Bytes) (hdr_end : ℕ)
    → find double_crlf raw_resp ≡ some hdr_end
    → has_conn (take (hdr_end + 2) raw_resp) ≡ true
    → add_extra headers (add_close raw_resp)
      ≡ take hdr_end raw_resp
        ++ (extra_lines (take hdr_end raw_resp) headers ++ drop hdr_end raw_resp)
unfolding add_close add_extra
add_extra-named headers raw_resp hdr_end e c = rw (e, add_close) (rw (c, add_close) refl)

add_close-unnamed :
    (head body : Bytes)
    → find double_crlf (head ++ (double_crlf ++ body)) ≡ some (length head)
    → has_conn (head ++ crlf) ≡ false
    → add_close (head ++ (double_crlf ++ body))
      ≡ (head ++ (close_line ++ (double_crlf ++ body)), some (length head + 21))
unfolding add_close
add_close-unnamed head body e c =
    rw (e, add_close)
      (rw (take-append-beyond 2 head (double_crlf ++ body))
        (rw (c, add_close) (rw (insert_at-end head close_line (double_crlf ++ body)) refl)))

add_extra-unnamed :
    (headers : List (Bytes × Bytes)) (head body : Bytes)
    → find double_crlf (head ++ (double_crlf ++ body)) ≡ some (length head)
    → has_conn (head ++ crlf) ≡ false
    → add_extra headers (add_close (head ++ (double_crlf ++ body)))
      ≡ head
        ++ (close_line
            ++ (crlf ++ (extra_lines (head ++ (close_line ++ crlf)) headers ++ (crlf ++ body))))
unfolding add_close add_extra
add_extra-unnamed headers head body e c =
    let rest : Bytes = close_line ++ (double_crlf ++ body) in
    ap (add_extra headers) (add_close-unnamed head body e c)
    ∙ ap (λ region. insert_at (length head + 21) (extra_lines region headers) (head ++ rest))
        (take-append-beyond 21 head rest)
    ∙ insert_at-append 21 head (extra_lines (head ++ (close_line ++ crlf)) headers) rest

-- When the head of a backend's response does not name the Connection header, a header of a filter
-- that the head does not have either lands behind the empty line that ends the head: it becomes
-- the first line of the body.
pub add_extra_into_body :
    (key value head body : Bytes)
    → find double_crlf (head ++ (double_crlf ++ body)) ≡ some (length head)
    → has_conn (head ++ crlf) ≡ false
    → contains (crlf ++ (key ++ bytes ":")) (head ++ (close_line ++ crlf)) ≡ false
    → add_extra ((key, value) ∷ []) (add_close (head ++ (double_crlf ++ body)))
      ≡ head ++ (close_line ++ (double_crlf ++ (key ++ (bytes ": " ++ (value ++ (crlf ++ body))))))
unfolding extra_lines
add_extra_into_body key value head body e c k =
    let line : Bytes = key ++ (bytes ": " ++ value) in
    let extra : extra_lines (head ++ (close_line ++ crlf)) ((key, value) ∷ []) ≡ crlf ++ line =
      rw (k, extra_lines) (append-nil (crlf ++ line)) in
    add_extra-unnamed ((key, value) ∷ []) head body e c
    ∙ ap (λ t. head ++ (close_line ++ (crlf ++ (t ++ (crlf ++ body))))) extra
    ∙ ap (λ t. head ++ (close_line ++ (double_crlf ++ t)))
        (append_assoc key (bytes ": " ++ value) (crlf ++ body))
