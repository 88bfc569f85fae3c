-- ===== src/Proxy/BackendConnection/Tests.antt =====
-- Runs of a backend connection.
use api_gateway.Prelude.{Bool}
use api_gateway.Proxy.BackendConnection.{unwritable}
use api_gateway.Prelude.{
  ◌≡◌, refl, some, [], ◌∷◌, ◌++◌, Bytes, bytes, crlf, double_crlf, find, starts_with,
}
use api_gateway.Prelude.Int.{pos}
use api_gateway.Proxy.BackendConnection.{
  BackendConnection, got, quiet, ended, sent, would_block, announced, recv_all, send_all, touch,
}
use api_gateway.Proxy.BackendConnection.Framing.{IsFramed, recv_all-pieces}
use api_gateway.Proxy.BackendConnection.Unannounced.{recv_all_unannounced}
use api_gateway.Proxy.BackendConnection.Sending.{IsBeginning, send_all-IsBeginning}

abbrev conn : BackendConnection
conn = record { fd = pos 5; host = bytes "h"; port = pos 80; last_activity = 0 }

abbrev head : Bytes
head = bytes "HTTP/1.1 200 OK" ++ (crlf ++ bytes "Content-Length: 3")

abbrev chunked_head : Bytes
chunked_head = bytes "HTTP/1.1 200 OK" ++ (crlf ++ bytes "Transfer-Encoding: chunked")

head-IsFramed : IsFramed head (bytes "abc")
unfolding find starts_with announced
head-IsFramed = record { cut = refl; size = refl }

recv_all-pieces_example :
    recv_all 7
      (got (head ++ 13 ∷ []) ∷ got (10 ∷ 13 ∷ 10 ∷ bytes "ab") ∷ got (bytes "c") ∷ quiet ∷ [])
      conn
    ≡ some (touch 7 conn, head ++ (double_crlf ++ bytes "abc"))
recv_all-pieces_example =
    recv_all-pieces 7 head (bytes "abc") (head ++ 13 ∷ [])
      ((10 ∷ 13 ∷ 10 ∷ bytes "ab") ∷ bytes "c" ∷ []) (quiet ∷ []) conn refl head-IsFramed refl
      ((λ e. cc e), ((λ e. cc e), tt))

-- The head in two pieces, the second with the beginning of a chunked body.
recv_all_unannounced_example :
    recv_all 7
      (got chunked_head ∷ got (double_crlf ++ bytes "3") ∷ got (13 ∷ 10 ∷ bytes "abc") ∷ ended ∷ [])
      conn
    ≡ some (touch 7 conn, (chunked_head ++ []) ++ (double_crlf ++ bytes "3"))
unfolding find starts_with announced
recv_all_unannounced_example =
    recv_all_unannounced 7 (chunked_head ∷ []) (double_crlf ++ bytes "3") 43
      (got (13 ∷ 10 ∷ bytes "abc") ∷ ended ∷ []) conn refl refl refl refl

send_all-IsBeginning_example :
    (r : Bytes × Bool) × ((send_all
          (sent 2 ∷ would_block ∷ sent 1 ∷ unwritable ∷ [])
          (bytes "abc")
          conn
        ≡ some r)
      × IsBeginning r.0 r.1 (bytes "abc"))
send_all-IsBeginning_example =
    send_all-IsBeginning (sent 2 ∷ would_block ∷ sent 1 ∷ []) (bytes "abc") conn refl
