-- ===== src/Proxy/BackendConnection.antt =====
-- A connection to a backend: src/proxy/backend.cpp and include/gateway/proxy/backend.h. What the
-- socket calls answer is an argument, one answer for each round of a loop; `none` says that the
-- answers ran out before the loop ended. The number that `Content-Length` spells is not cut to the
-- 63 bits of the source, where a longer one overflows.
pub mod Ending
pub mod Framing
pub mod Unannounced
pub mod Sending
mod Tests
use api_gateway.Prelude.{
  ◌==◌, ℕ, ◌+◌, ◌≤◌, Bool, true, false, not, ◌&&◌, Option, none, some, List, [], ◌∷◌, ◌++◌, Bytes,
  bytes, length, take, drop, ltb, leb, if◌then◌else◌, find, crlf, double_crlf,
}
use api_gateway.Prelude.Int.{ℤ, pos, negsuc}
use api_gateway.Http.Text.{is_digit, digits_value, take_while, drop_while}
use api_gateway.Core.Config.{Backend}

pub record BackendConnection : Type 0 where
  pub fd : ℤ
  pub host : Bytes
  pub port : ℤ
  pub last_activity : ℕ

-- `BackendConnection(host, port)`
abbrev pub backend_connection : Backend → BackendConnection
backend_connection b = record { fd = negsuc 0; host = b.host; port = b.port; last_activity = 0 }

abbrev pub is_open : ℤ → Bool
is_open (pos n) = true
is_open (negsuc n) = false

unfoldable pub touch : ℕ → BackendConnection → BackendConnection
touch now c = record c { last_activity = now }

unfoldable pub close : BackendConnection → BackendConnection
close c = if is_open c.fd then record c { fd = negsuc 0 } else c

-- What the calls of `connect` answer: the new descriptor, whether the address can be read, how the
-- call of `connect` ends, whether `poll` says writable in time, and whether no error is pending.
pub data Connecting : Type 0 where
  at_once in_progress refused : Connecting

pub record Dial : Type 0 where
  pub fd : ℤ
  pub address_ok : Bool
  pub connecting : Connecting
  pub writable : Bool
  pub without_error : Bool

unfoldable pub dial_socket : ℕ → Dial → BackendConnection → BackendConnection × Bool
unfolding touch close
dial_socket now d c = if not d.address_ok then (close c, false) else elim d.connecting [
  | at_once ↦ (touch now c, true)
  | refused ↦ (close c, false)
  | in_progress ↦ if d.writable && d.without_error then (touch now c, true) else (close c, false)
]

unfoldable pub connect : ℕ → Dial → BackendConnection → BackendConnection × Bool
unfolding dial_socket
connect now d c =
    let opened = record c { fd = d.fd } in
    if is_open d.fd then dial_socket now d opened else (opened, false)

-- A round of `send_all`: `poll` fails or times out, or `send` takes some bytes, would block, or
-- fails.
pub data SendAnswer : Type 0 where
  unwritable : SendAnswer
  sent : ℕ → SendAnswer
  would_block : SendAnswer
  send_failed : SendAnswer

-- The bytes that have gone out, and whether all have. `send` takes no more than it is given.
unfoldable pub send_loop : List SendAnswer → Bytes → Bytes → Option (Bytes × Bool)
send_loop [] out [] = some (out, true)
send_loop [] out (c ∷ cs) = none
send_loop (a ∷ answers) out [] = some (out, true)
send_loop (unwritable ∷ answers) out (c ∷ cs) = some (out, false)
send_loop (sent n ∷ answers) out (c ∷ cs) = elim (ltb 0 n) [
  | true ↦ send_loop answers (out ++ take n (c ∷ cs)) (drop n (c ∷ cs))
  | false ↦ some (out, false)
]
send_loop (would_block ∷ answers) out (c ∷ cs) = send_loop answers out (c ∷ cs)
send_loop (send_failed ∷ answers) out (c ∷ cs) = some (out, false)

unfoldable pub send_all : List SendAnswer → Bytes → BackendConnection → Option (Bytes × Bool)
unfolding send_loop
send_all answers data_ c = if is_open c.fd then send_loop answers [] data_ else some ([], false)

-- A round of `recv_all`: `poll` fails or times out, or `recv` gives bytes, the end of the stream,
-- nothing yet, or an error.
pub data RecvAnswer : Type 0 where
  quiet : RecvAnswer
  got : Bytes → RecvAnswer
  ended : RecvAnswer
  not_yet : RecvAnswer
  broken : RecvAnswer

-- `content_length` is none for -1.
pub record Receiving : Type 0 where
  pub resp : Bytes
  pub got_data : Bool
  pub content_length : Option ℕ
  pub header_end : Option ℕ

abbrev pub nothing_received : Receiving
nothing_received = record { resp = []; got_data = false; content_length = none; header_end = none }

abbrev pub is_blank_space : ℕ → Bool
is_blank_space c = c == 32

-- The digits behind a header's name and spaces.
unfoldable pub value_at : ℕ → Bytes → ℕ
unfolding digits_value take_while drop_while is_digit
value_at i headers =
    digits_value 0 (take_while is_digit (drop_while is_blank_space (drop (i + 17) headers)))

-- Without the header, in one of its two spellings, 0.
unfoldable pub announced : Bytes → ℕ
unfolding value_at
announced headers = elim (find (crlf ++ bytes "Content-Length:") headers) [
  | some i ↦ value_at i headers
  | none ↦ elim (find (crlf ++ bytes "content-length:") headers) [
    | some i ↦ value_at i headers
    | none ↦ 0
  ]
]

-- Looks for the end of the header, until it has been found.
unfoldable pub note_length : Receiving → Receiving
unfolding announced
note_length r = elim r.content_length [
  | some n ↦ r
  | none ↦ elim (find double_crlf r.resp) [
    | none ↦ record r { header_end = none }
    | some i ↦ record r { header_end = some i; content_length = some (announced (take i r.resp)) }
  ]
]

pub reaches : Option ℕ → Option ℕ → ℕ → Bool
reaches (some header_end) (some content_length) size = leb (header_end + 4 + content_length) size
reaches _ _ size = false

-- Whether the whole response is there.
unfoldable pub has_response : Receiving → Bool
unfolding reaches
has_response r = reaches r.header_end r.content_length (length r.resp)

unfoldable pub take_chunk : Bytes → Receiving → Receiving
unfolding note_length
take_chunk s r = note_length (record r { resp = r.resp ++ s; got_data = true })

-- The last flag says that the peer has closed.
unfoldable pub recv_loop : List RecvAnswer → Receiving → Option (Receiving × Bool)
unfolding take_chunk has_response
recv_loop [] r = none
recv_loop (quiet ∷ answers) r = some (r, false)
recv_loop (got s ∷ answers) r = elim (has_response (take_chunk s r)) [
  | true ↦ some (take_chunk s r, false)
  | false ↦ recv_loop answers (take_chunk s r)
]
recv_loop (ended ∷ answers) r = some (r, true)
recv_loop (not_yet ∷ answers) r = recv_loop answers r
recv_loop (broken ∷ answers) r = some (r, false)

-- A connection without data or at its end is closed.
unfoldable pub recv_result : ℕ → BackendConnection → Receiving × Bool → BackendConnection × Bytes
unfolding close touch
recv_result now c (r, eof) =
    if r.got_data then (if eof then (close c, r.resp) else (touch now c, r.resp)) else (close c, [])

unfoldable pub recv_all :
    ℕ → List RecvAnswer → BackendConnection → Option (BackendConnection × Bytes)
unfolding recv_loop recv_result
recv_all now answers c =
    if is_open c.fd
    then elim (recv_loop answers nothing_received) [
      | none ↦ none
      | some r ↦ some (recv_result now c r)
    ]
    else some (c, [])

-- What the calls of `is_alive` answer: whether no error is pending, and what a look at the next
-- byte gives.
pub data Peek : Type 0 where
  byte_there nothing_yet peer_closed peek_failed : Peek

unfoldable pub is_alive : Bool → Peek → BackendConnection → Bool
is_alive without_error peek c =
    if not (is_open c.fd) then false else if not without_error then false else elim peek [
      | byte_there ↦ true
      | nothing_yet ↦ true
      | peer_closed ↦ false
      | peek_failed ↦ false
    ]
