-- ===== src/Proxy/Forwarding/Accounting.antt =====
-- What one forwarded request leaves behind: the counts of active connections, and an answer.
use api_gateway.Proxy.BackendPool.{acquire}
use api_gateway.Proxy.BackendConnection.{send_all, unwritable, quiet}
use api_gateway.Prelude.{◌++◌, true, false, none, some}
use api_gateway.Proxy.BackendConnection.Ending.{recv_all_ends, send_all_ends}
use api_gateway.Prelude.{Option, ◌∙◌}
use api_gateway.Prelude.{◌≡◌, refl, Bool, true, false, none, some, [], ◌∷◌, Bytes, is_empty}
use api_gateway.Prelude.Map.{bytes_key}
use api_gateway.Core.Config.{Backend}
use api_gateway.Proxy.LoadBalancer.{make_key}
use api_gateway.Proxy.BackendPool.{acquire, BackendPool, Pooled, one_less, evict}
use api_gateway.Proxy.Forwarding.{
  forward_acquired, forward_pooled, make_502_response, exchange, read_response, send_all, Answers,
  received,
}
use api_gateway.Proxy.BackendPool.Counting.{
  active, changed, IsAcquired, evict-active, release-active, give_back-reserved, acquire-IsAcquired,
}

-- The answer is there, and one connection less is active.
abbrev IsSettled : Backend → BackendPool → BackendPool × Bytes → Type 0
IsSettled backend pool (pool', resp) =
    ((j : Bytes)
      → active j pool'
        ≡ changed (make_key backend) (one_less (active (make_key backend) pool)) j pool)
    × (is_empty resp ≡ false)

received-IsSettled :
    (a : Answers) (backend : Backend) (pool : BackendPool) (c : Pooled) (resp : Bytes)
    → IsSettled backend pool (received a backend pool c resp)
unfolding received
received-IsSettled a backend pool c [] = (λ j. evict-active j backend c pool, refl)
received-IsSettled a backend pool c (d ∷ resp) =
    (λ j. release-active j a.look_after backend c pool, refl)

-- The same answers, until a poll times out.
abbrev pub until_timeout : Answers → Answers
until_timeout a = record a {
  sending = a.sending ++ unwritable ∷ [];
  receiving = a.receiving ++ quiet ∷ [];
}

abbrev IsAnswered : Backend → BackendPool → Option (BackendPool × Bytes) → Type 0
IsAnswered backend pool o = (r : BackendPool × Bytes) × ((o ≡ some r) × IsSettled backend pool r)

read_response-IsAnswered :
    (a : Answers) (backend : Backend) (pool : BackendPool) (c : Pooled)
    → IsAnswered backend pool (read_response (until_timeout a) backend pool c)
unfolding read_response
read_response-IsAnswered a backend pool c =
    let (r, e) = recv_all_ends a.now a.receiving c.conn in
    rw (e, read_response)
      (_, (refl, received-IsSettled (until_timeout a) backend pool (record c { conn = r.0 }) r.1))

exchange-IsAnswered :
    (a : Answers) (backend : Backend) (raw_request : Bytes) (pool : BackendPool) (c : Pooled)
    → IsAnswered backend pool (exchange (until_timeout a) backend raw_request pool c)
unfolding exchange
exchange-IsAnswered a backend raw_request pool c =
    let ((out, ok), e) = send_all_ends a.sending raw_request c.conn in ending ok out e
  where
    ending :
        (ok : Bool) (out : Bytes)
        → send_all (a.sending ++ unwritable ∷ []) raw_request c.conn ≡ some (out, ok)
        → IsAnswered backend pool (exchange (until_timeout a) backend raw_request pool c)
    ending true out e = rw (e, exchange) (read_response-IsAnswered a backend pool c)
    ending false out e =
        rw (e, exchange)
          (
            (evict backend (some c) pool, make_502_response),
            (refl, (λ j. evict-active j backend c pool, refl)),
          )

-- An answer to one request, with the counts as they were.
abbrev IsForwarded : BackendPool → Option (BackendPool × Bytes) → Type 0
IsForwarded pool o =
    (r : BackendPool × Bytes) × ((o ≡ some r)
      × (((j : Bytes) → active j r.0 ≡ active j pool) × (is_empty r.1 ≡ false)))

forward_acquired-IsForwarded :
    (a : Answers) (backend : Backend) (raw_request : Bytes) (pool : BackendPool)
    (r : BackendPool × Option Pooled)
    → IsAcquired (make_key backend) pool r
    → IsForwarded pool (forward_acquired (until_timeout a) backend raw_request r)
unfolding forward_acquired
forward_acquired-IsForwarded a backend raw_request pool (pool', none) h =
    ((pool', make_502_response), (refl, (h, refl)))
forward_acquired-IsForwarded a backend raw_request pool (pool', some c) h =
    let (r, (q, (counts, answered))) = exchange-IsAnswered a backend raw_request pool' c in
    (r, (q, ((λ j. counts j ∙ give_back-reserved (make_key backend) pool pool' h j), answered)))

-- On every path of a pooled request whose polls time out in the end, `forward_pooled` returns an
-- answer that is not empty and leaves the count of active connections of every key as it was.
pub forward_pooled-active :
    (a : Answers) (backend : Backend) (raw_request : Bytes) (pool : BackendPool)
    → (r : BackendPool × Bytes) × ((forward_pooled (until_timeout a) backend raw_request pool
          ≡ some r)
        × (((j : Bytes) → active j r.0 ≡ active j pool) × (is_empty r.1 ≡ false)))
unfolding forward_pooled
forward_pooled-active a backend raw_request pool =
    forward_acquired-IsForwarded a backend raw_request pool
      (acquire a.look a.ident a.now a.dial backend pool)
      (acquire-IsAcquired a.look a.ident a.now a.dial backend pool)
