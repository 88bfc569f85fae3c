-- ===== src/Net/Connection/Tests.antt =====
-- Runs of a connection.
use api_gateway.Net.Buffer.{readable_size, append, write_to_fd}
use api_gateway.Net.Connection.Runs.{effects_of, taken_of}
use api_gateway.Prelude.{◌+◌, ◌≤◌, ◌≡◌, refl, false, List, [], ◌∷◌, ◌++◌, Bytes, bytes, double_crlf}
use api_gateway.Prelude.Int.{pos}
use api_gateway.Net.Connection.{
  connection, ConnectionEvent, can_read, send, bytes_read, nothing_yet, wrote,
}
use api_gateway.Net.Connection.Pipelining.{messages, closes}
use api_gateway.Net.Connection.Runs.{run_events, run_events-messages}

abbrev request : Bytes
request = bytes "GET / HTTP/1.1" ++ double_crlf

-- A request, its response, and the end of the stream.
abbrev events : List ConnectionEvent
events =
    can_read 1 (bytes_read request ∷ nothing_yet ∷ [])
    ∷ send 2 (wrote 3 ∷ wrote 2 ∷ []) (bytes "hello") false
    ∷ can_read 3 []
    ∷ []

-- A response without a request, which the connection takes too.
taken_one :
    taken_of (
      run_events 1
        (send 2 (wrote 3 ∷ wrote 2 ∷ []) (bytes "hello") false ∷ can_read 3 [] ∷ [])
        (connection (pos 5) 65536 0))
    ≡ 1
unfolding run_events readable_size append write_to_fd
taken_one = refl

run_events-messages_example :
    let o = run_events 40 events (connection (pos 5) 65536 0) in
    (messages (effects_of o) ≤ taken_of o + 1) × (closes (effects_of o) ≤ 1)
run_events-messages_example = run_events-messages 40 events (pos 5) 65536 0
