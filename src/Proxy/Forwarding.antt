-- ===== src/Proxy/Forwarding.antt =====
-- Forwarding a request: src/proxy/proxy.cpp. What the system answers comes with each call; `none`
-- says that the answers ran out before the routine returned.
pub mod Accounting
pub mod Answering
mod Tests
use api_gateway.Prelude.{
  not, ◌&&◌, ℕ, Bool, true, false, Option, none, some, List, [], ◌∷◌, ◌++◌, Bytes, bytes, is_empty,
  crlf, if◌then◌else◌,
}
use api_gateway.Prelude.Int.{ℤ, pos, negsuc}
use api_gateway.Core.Config.{Backend}
use api_gateway.Proxy.BackendConnection.{
  Dial, SendAnswer, RecvAnswer, quiet, got, ended, not_yet, broken, Connecting, at_once,
  in_progress, refused, is_open, send_loop, send_all, recv_all,
}
use api_gateway.Proxy.BackendPool.{BackendPool, Pooled, Look, acquire, evict, release}

abbrev pub make_502_response : Bytes
make_502_response =
    bytes "HTTP/1.1 502 Bad Gateway"
    ++ (crlf
        ++ (bytes "Content-Length: 11"
            ++ (crlf ++ (bytes "Connection: close" ++ (crlf ++ (crlf ++ bytes "Bad Gateway"))))))

-- What the system answers to one request: the identity that a new connection would get, and the
-- answers to each call in turn.
pub record Answers : Type 0 where
  pub now : ℕ
  pub ident : ℕ
  pub look : Look
  pub dial : Dial
  pub sending : List SendAnswer
  pub receiving : List RecvAnswer
  pub look_after : Look

-- What has been read, with the connection to give back or not.
unfoldable pub received : Answers → Backend → BackendPool → Pooled → Bytes → BackendPool × Bytes
unfolding evict release
received a backend pool c resp =
    if is_empty resp
    then (evict backend (some c) pool, make_502_response)
    else (release a.look_after backend (some c) pool, resp)

unfoldable pub read_response :
    Answers → Backend → BackendPool → Pooled → Option (BackendPool × Bytes)
unfolding recv_all received
read_response a backend pool c = elim (recv_all a.now a.receiving c.conn) [
  | none ↦ none
  | some (conn, resp) ↦ some (received a backend pool (record c { conn = conn }) resp)
]

unfoldable pub exchange :
    Answers → Backend → Bytes → BackendPool → Pooled → Option (BackendPool × Bytes)
unfolding send_all read_response evict
exchange a backend raw_request pool c = elim (send_all a.sending raw_request c.conn) [
  | none ↦ none
  | some (out, true) ↦ read_response a backend pool c
  | some (out, false) ↦ some (evict backend (some c) pool, make_502_response)
]

-- After `acquire`.
unfoldable pub forward_acquired :
    Answers → Backend → Bytes → BackendPool × Option Pooled → Option (BackendPool × Bytes)
unfolding exchange
forward_acquired a backend raw_request (pool, none) = some (pool, make_502_response)
forward_acquired a backend raw_request (pool, some c) = exchange a backend raw_request pool c

unfoldable pub forward_pooled :
    Answers → Backend → Bytes → BackendPool → Option (BackendPool × Bytes)
unfolding acquire forward_acquired
forward_pooled a backend raw_request pool =
    forward_acquired a backend raw_request (acquire a.look a.ident a.now a.dial backend pool)

-- `nb_connect`
unfoldable pub nb_connect : Dial → Bool
nb_connect d = elim d.connecting [
  | at_once ↦ true
  | refused ↦ false
  | in_progress ↦ d.writable && d.without_error
]

unfoldable pub nb_send_all : List SendAnswer → Bytes → Option (Bytes × Bool)
unfolding send_loop
nb_send_all answers data_ = send_loop answers [] data_

-- The loop of `forward_direct`: everything until the peer closes, falls silent or fails.
unfoldable pub read_all : List RecvAnswer → Bytes → Option Bytes
read_all [] resp = none
read_all (quiet ∷ answers) resp = some resp
read_all (got s ∷ answers) resp = read_all answers (resp ++ s)
read_all (ended ∷ answers) resp = some resp
read_all (not_yet ∷ answers) resp = read_all answers resp
read_all (broken ∷ answers) resp = some resp

unfoldable pub or_502 : Bytes → Bytes
or_502 resp = if is_empty resp then make_502_response else resp

unfoldable pub exchange_direct : Answers → Bytes → Option Bytes
unfolding nb_send_all read_all or_502
exchange_direct a raw_request = elim (nb_send_all a.sending raw_request) [
  | none ↦ none
  | some (out, false) ↦ some make_502_response
  | some (out, true) ↦ elim (read_all a.receiving []) [
    | none ↦ none
    | some resp ↦ some (or_502 resp)
  ]
]

unfoldable pub forward_direct : Answers → Bytes → Option Bytes
unfolding nb_connect exchange_direct
forward_direct a raw_request =
    if not (is_open a.dial.fd)
    then some make_502_response
    else if not a.dial.address_ok
    then some make_502_response
    else if nb_connect a.dial
    then exchange_direct a raw_request
    else some make_502_response

-- `pool_` may be missing.
unfoldable pub forward :
    Answers → Backend → Bytes → Option BackendPool → Option (Option BackendPool × Bytes)
unfolding forward_pooled forward_direct
forward a backend raw_request none = elim (forward_direct a raw_request) [
  | none ↦ none
  | some resp ↦ some (none, resp)
]
forward a backend raw_request (some pool) = elim (forward_pooled a backend raw_request pool) [
  | none ↦ none
  | some (pool', resp) ↦ some (some pool', resp)
]
