-- ===== src/Core/Gateway/Splicing.antt =====
-- What `process_request` of src/core/gateway.cpp does with the text of a backend's response.
use api_gateway.Prelude.{
  ℕ, ◌+◌, Bool, true, false, not, ◌&&◌, ◌||◌, Option, none, some, List, [], ◌∷◌, ◌++◌, Bytes, bytes,
  crlf, double_crlf, find, find_char, take, drop, starts_with, is_empty, if◌then◌else◌,
}
use api_gateway.Prelude.Int.{ℤ, pos}
use api_gateway.Http.Text.{parse_int_safe}
use api_gateway.Http.Message.{find_char_from}
use api_gateway.Http.Request.{HttpRequest, request_keep_alive}

-- Whether `memmem` or `find` finds the needle.
abbrev pub contains : Bytes → Bytes → Bool
contains needle s = elim (find needle s) [ none ↦ false | some i ↦ true ]

-- `out.insert(i, text)`
abbrev pub insert_at : ℕ → Bytes → Bytes → Bytes
insert_at i text s = take i s ++ (text ++ drop i s)

unfoldable pub has_conn : Bytes → Bool
has_conn head =
    contains (crlf ++ bytes "Connection:") head || contains (crlf ++ bytes "connection:") head

abbrev pub close_line : Bytes
close_line = crlf ++ bytes "Connection: close"

-- The text and `hdr_end`.
unfoldable pub add_close : Bytes → Bytes × Option ℕ
unfolding has_conn
add_close raw_resp = elim (find double_crlf raw_resp) [
  | none ↦ (raw_resp, none)
  | some hdr_end ↦
      if has_conn (take (hdr_end + 2) raw_resp)
      then (raw_resp, some hdr_end)
      else (insert_at hdr_end close_line raw_resp, some (hdr_end + 21))
]

-- The status code between the first two spaces.
unfoldable pub status_of : Bytes → ℤ → ℤ
status_of out code = elim (find_char 32 out) [
  | none ↦ code
  | some sp1 ↦ elim (find_char_from 32 (sp1 + 1) out) [
    | none ↦ code
    | some sp2 ↦ elim (parse_int_safe (drop (sp1 + 1) (take sp2 out))) [
      | none ↦ code
      | some n ↦ pos n
    ]
  ]
]

-- The lines of the headers that the text does not have before `hdr_end`.
unfoldable pub extra_lines : Bytes → List (Bytes × Bytes) → Bytes
extra_lines region [] = []
extra_lines region ((k, v) ∷ m) =
    (if contains (crlf ++ (k ++ bytes ":")) region then [] else crlf ++ (k ++ (bytes ": " ++ v)))
    ++ extra_lines region m

unfoldable pub add_extra : List (Bytes × Bytes) → Bytes × Option ℕ → Bytes
unfolding extra_lines
add_extra headers (out, none) = out
add_extra headers (out, some hdr_end) =
    insert_at hdr_end (extra_lines (take hdr_end out) headers) out

unfoldable pub says_close : Bytes → Bool
says_close out = contains close_line out || contains (crlf ++ bytes "connection: close") out

unfoldable pub keeps_alive : HttpRequest → Bytes → Bool
unfolding says_close
keeps_alive req out = request_keep_alive req && not (says_close out)

unfoldable pub is_upstream_success : Bytes → Bool
is_upstream_success raw_resp =
    not (is_empty raw_resp) && not (starts_with (bytes "HTTP/1.1 5") raw_resp)
