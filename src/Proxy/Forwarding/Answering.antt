-- ===== src/Proxy/Forwarding/Answering.antt =====
-- The answer of `forward`, with and without a pool.
use api_gateway.Prelude.{if◌then◌else◌}
use api_gateway.Prelude.{List, ℕ, not}
use api_gateway.Proxy.Forwarding.{
  read_all, or_502, exchange_direct, nb_send_all, forward_direct, nb_connect, forward,
}
use api_gateway.Proxy.BackendConnection.{
  RecvAnswer, got, ended, not_yet, broken, send_loop, is_open,
}
use api_gateway.Proxy.BackendConnection.Ending.{send_loop_ends}
use api_gateway.Proxy.BackendConnection.{unwritable, quiet}
use api_gateway.Prelude.{◌++◌, true, false, none, some}
use api_gateway.Prelude.{Option}
use api_gateway.Prelude.{◌≡◌, refl, Bool, true, false, none, some, [], ◌∷◌, Bytes, is_empty}
use api_gateway.Prelude.Map.{bytes_key}
use api_gateway.Core.Config.{Backend}
use api_gateway.Proxy.BackendPool.{BackendPool}
use api_gateway.Proxy.Forwarding.{make_502_response, Answers}
use api_gateway.Proxy.BackendPool.Counting.{active}
use api_gateway.Proxy.Forwarding.Accounting.{until_timeout, forward_pooled-active}

abbrev pub active_in : Bytes → Option BackendPool → ℕ
active_in key none = 0
active_in key (some pool) = active key pool

-- An answer to one request, with the counts as they were.
abbrev pub IsDone : Option BackendPool → Option (Option BackendPool × Bytes) → Type 0
IsDone proxy o =
    (r : Option BackendPool × Bytes) × ((o ≡ some r)
      × (((j : Bytes) → active_in j r.0 ≡ active_in j proxy) × (is_empty r.1 ≡ false)))

read_all_ends :
    (answers : List RecvAnswer) (resp : Bytes)
    → (out : Bytes) × (read_all (answers ++ quiet ∷ []) resp ≡ some out)
unfolding read_all
read_all_ends [] resp = (_, refl)
read_all_ends (quiet ∷ answers) resp = (_, refl)
read_all_ends (got s ∷ answers) resp = read_all_ends answers (resp ++ s)
read_all_ends (ended ∷ answers) resp = (_, refl)
read_all_ends (not_yet ∷ answers) resp = read_all_ends answers resp
read_all_ends (broken ∷ answers) resp = (_, refl)

or_502-is_empty : (resp : Bytes) → is_empty (or_502 resp) ≡ false
unfolding or_502
or_502-is_empty [] = refl
or_502-is_empty (d ∷ resp) = refl

abbrev IsAnswer : Option Bytes → Type 0
IsAnswer o = (resp : Bytes) × ((o ≡ some resp) × (is_empty resp ≡ false))

bad_gateway : IsAnswer (some make_502_response)
bad_gateway = (make_502_response, (refl, refl))

exchange_direct-IsAnswer :
    (a : Answers) (raw_request : Bytes) → IsAnswer (exchange_direct (until_timeout a) raw_request)
unfolding exchange_direct nb_send_all
exchange_direct-IsAnswer a raw_request =
    let ((out, ok), e) = send_loop_ends a.sending [] raw_request in ending ok out e
  where
    ending :
        (ok : Bool) (out : Bytes)
        → send_loop (a.sending ++ unwritable ∷ []) [] raw_request ≡ some (out, ok)
        → IsAnswer (exchange_direct (until_timeout a) raw_request)
    ending true out e =
        let (resp, q) = read_all_ends a.receiving [] in
        rw (e, exchange_direct)
          (rw (q, exchange_direct) (or_502 resp, (refl, or_502-is_empty resp)))
    ending false out e = rw (e, exchange_direct) bad_gateway

if-IsAnswer :
    (b : Bool) (o p : Option Bytes) → IsAnswer o → IsAnswer p → IsAnswer (if b then o else p)
if-IsAnswer true o p h k = h
if-IsAnswer false o p h k = k

forward_direct-IsAnswer :
    (a : Answers) (raw_request : Bytes) → IsAnswer (forward_direct (until_timeout a) raw_request)
unfolding forward_direct
forward_direct-IsAnswer a raw_request = if-IsAnswer (not (is_open a.dial.fd)) _ _ bad_gateway (
    if-IsAnswer (not a.dial.address_ok) _ _ bad_gateway
      (if-IsAnswer (nb_connect a.dial) _ _ (exchange_direct-IsAnswer a raw_request) bad_gateway))

pub forward-IsDone :
    (a : Answers) (backend : Backend) (raw_request : Bytes) (proxy : Option BackendPool)
    → IsDone proxy (forward (until_timeout a) backend raw_request proxy)
unfolding forward
forward-IsDone a backend raw_request none =
    let (resp, (e, answered)) = forward_direct-IsAnswer a raw_request in
    rw (e, forward) ((none, resp), (refl, ((λ j. refl), answered)))
forward-IsDone a backend raw_request (some pool) =
    let ((pool', resp), (e, (counts, answered))) =
      forward_pooled-active a backend raw_request pool in
    rw (e, forward) ((some pool', resp), (refl, (counts, answered)))
