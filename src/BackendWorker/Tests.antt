-- ===== src/BackendWorker/Tests.antt =====
-- A run of the server for trying the gateway out.
use api_gateway.Prelude.{refl, ◌≡◌, bytes, starts_with, find, ◌∷◌, [], some}
use api_gateway.BackendWorker.{got, closed, handle_client_keepalive}

one_request :
    handle_client_keepalive
      (bytes "user")
      (got (bytes "GET / HTTP/1.1\r\n") ∷ got (bytes "\r\nx") ∷ closed ∷ [])
    ≡ some (
        bytes
          "HTTP/1.1 200 OK\r\nContent-Type: application/json\r\nConnection: keep-alive\r\nContent-Length: 29\r\n\r\n{\"service\":\"user\",\"body\":\"x\"}"
        ∷ [])
unfolding handle_client_keepalive find starts_with
one_request = refl
