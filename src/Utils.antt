-- ===== src/Utils.antt =====
-- Reading a whole request from a blocking socket, `recv_all_request` of src/utils/utils.cpp. What
-- `recv` answers is a list with one answer for each round of the loop. Sizes stay below 2^31.
mod Requests
mod Tests
use api_gateway.Prelude.{
  ◌||◌, bytes, leb, ◌-◌, ◌==◌, crlf, double_crlf, drop, length, take, ◌&&◌, Bool, false, find, ltb,
  not, ◌++◌, ◌+◌, Bytes, List, Option, if◌then◌else◌, true, ℕ, ◌∷◌, [], none, some, zero, suc,
}
use mathlib.Core.Option
use api_gateway.Prelude.Int.{ℤ, pos, negsuc, is_positive}
use api_gateway.Http.Text.{parse_int_safe}

pub data RecvAnswer : Type 0 where
  got : Bytes → RecvAnswer
  closed : RecvAnswer
  failed : RecvAnswer

-- How the reading ends: with a text, in undefined behaviour, or not before the answers run out.
pub data Received : Type 0 where
  returned : Bytes → Received
  undefined : Received
  unfinished : Received

-- `content_length` is none for -1.
pub record Reading : Type 0 where
  pub data_ : Bytes
  pub content_length : Option ℕ
  pub headers_complete : Bool

unfoldable pub effective_max : ℤ → ℕ
effective_max (pos n) = if ltb 0 n then n else 2147483647
effective_max (negsuc n) = 2147483647

-- The first bytes of an array; none where it has fewer, since reading beyond it is undefined.
unfoldable pub read_bytes : ℕ → Bytes → Option Bytes
read_bytes zero s = some []
read_bytes (suc n) [] = none
read_bytes (suc n) (c ∷ s) = Option.map (λ t. c ∷ t) (read_bytes n s)

-- The array that the literal stands for, with the byte that ends it.
abbrev pub content_length_literal : Bytes
content_length_literal = bytes "Content-Length:" ++ 0 ∷ []

-- `data.find("Content-Length:", 0, header_end)`: the third argument is how many bytes of the array
-- are searched for.
unfoldable pub find_length : ℕ → Bytes → Option (Option ℕ)
unfolding read_bytes
find_length header_end data_ =
    Option.map (λ needle. find needle data_) (read_bytes header_end content_length_literal)

unfoldable pub skip_blanks : ℕ → ℕ → Bytes → ℕ
skip_blanks cl_pos header_end [] = cl_pos
skip_blanks cl_pos header_end (c ∷ cs) =
    let rest = skip_blanks (cl_pos + 1) header_end cs in
    if ltb cl_pos header_end && (c == b' ' || c == b'\t') then rest else cl_pos

unfoldable pub end_of_value : ℕ → ℕ → Bytes → ℕ
end_of_value cl_pos header_end data_ = elim (find crlf (drop cl_pos data_)) [
  | none ↦ header_end
  | some i ↦ if ltb header_end (cl_pos + i) then header_end else cl_pos + i
]

-- The number behind the header's name, which starts at `name`.
unfoldable pub length_at : ℕ → ℕ → Bytes → Option ℕ
unfolding skip_blanks end_of_value
length_at name header_end data_ =
    let cl_pos = skip_blanks (name + 15) header_end (drop (name + 15) data_) in
    let cl_end = end_of_value cl_pos header_end data_ in
    parse_int_safe (take (cl_end - cl_pos) (drop cl_pos data_))

unfoldable pub note_found : ℕ → Option ℕ → Reading → Reading
unfolding length_at
note_found header_end none r = record r { headers_complete = true }
note_found header_end (some name) r = record r {
  headers_complete = true;
  content_length = length_at name header_end r.data_;
}

-- `none` is undefined behaviour.
unfoldable pub note_header : ℕ → Reading → Option Reading
note_header header_end r =
    Option.map (λ name. note_found header_end name r) (find_length header_end r.data_)

-- The end of a round: whether the request is whole, or the loop reads on.
unfoldable pub after_headers : Reading → Option Bytes
after_headers r = if not r.headers_complete then none else elim r.content_length [
  | none ↦ some r.data_
  | some n ↦ elim (find double_crlf r.data_) [
    | none ↦ none
    | some i ↦ if leb n (length r.data_ - (i + 4)) then some (take (i + 4 + n) r.data_) else none
  ]
]

-- `content_length > effective_max`
unfoldable pub too_long : ℕ → Option ℕ → Bool
too_long limit none = false
too_long limit (some n) = ltb limit n

-- The first steps of a round, on the text with the new bytes; `none` is undefined behaviour.
unfoldable pub look_for_header : Reading → Option Reading
unfolding note_header
look_for_header r = if r.headers_complete then some r else elim (find double_crlf r.data_) [
  | none ↦ some r
  | some header_end ↦ note_header header_end r
]

pub data ReadStep : Type 0 where
  stopping : Received → ReadStep
  reading_on : Reading → ReadStep

-- A round in which `recv` has returned bytes.
unfoldable pub request_round : ℕ → Bytes → Reading → ReadStep
request_round limit s r =
    let grown = record r { data_ = r.data_ ++ s } in
    if ltb limit (length grown.data_)
    then stopping (returned [])
    else elim (look_for_header grown) [
      | none ↦ stopping undefined
      | some q ↦
          if not r.headers_complete && too_long limit q.content_length
          then stopping (returned [])
          else elim (after_headers q) [
            | some whole ↦ stopping (returned whole)
            | none ↦
                if ltb (length s) 4096 && not q.headers_complete
                then stopping (returned q.data_)
                else reading_on q
          ]
    ]

unfoldable pub request_loop : ℕ → List RecvAnswer → Reading → Received
request_loop limit [] r = unfinished
request_loop limit (closed ∷ answers) r = returned r.data_
request_loop limit (failed ∷ answers) r = returned r.data_
request_loop limit (got s ∷ answers) r = elim (request_round limit s r) [
  | stopping text ↦ text
  | reading_on q ↦ request_loop limit answers q
]

unfoldable pub recv_all_request : ℤ → List RecvAnswer → Received
recv_all_request max_size answers =
    request_loop (effective_max max_size) answers
      (record { data_ = []; content_length = none; headers_complete = false })
