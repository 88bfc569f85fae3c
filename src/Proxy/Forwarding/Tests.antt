-- ===== src/Proxy/Forwarding/Tests.antt =====
-- Runs of the proxy.
use api_gateway.Prelude.{◌≡◌, true, false, some, [], ◌∷◌, Bytes, bytes, is_empty}
use api_gateway.Prelude.Int.{pos}
use api_gateway.Core.Config.{Backend}
use api_gateway.Proxy.BackendConnection.{at_once, nothing_yet, sent, got}
use api_gateway.Proxy.BackendPool.{BackendPool, backend_pool}
use api_gateway.Proxy.BackendPool.Counting.{active}
use api_gateway.Proxy.Forwarding.{Answers, forward_pooled}
use api_gateway.Proxy.Forwarding.Accounting.{until_timeout, forward_pooled-active}

abbrev backend : Backend
backend = record { host = bytes "h"; port = pos 80 }

abbrev answers : Answers
answers = record {
  now = 3;
  ident = 0;
  look = λ i. (true, nothing_yet);
  dial = record {
    fd = pos 5;
    address_ok = true;
    connecting = at_once;
    writable = true;
    without_error = true;
  };
  sending = sent 2 ∷ sent 9 ∷ [];
  receiving = got (bytes "partial") ∷ [];
  look_after = λ i. (true, nothing_yet);
}

forward_pooled-active_example :
    (r : BackendPool × Bytes) × ((forward_pooled
          (until_timeout answers)
          backend
          (bytes "GET")
          (backend_pool 8 60)
        ≡ some r)
      × (((j : Bytes) → active j r.0 ≡ active j (backend_pool 8 60)) × (is_empty r.1 ≡ false)))
forward_pooled-active_example =
    forward_pooled-active answers backend (bytes "GET") (backend_pool 8 60)
