-- ===== src/BackendWorker.antt =====
-- The servers for trying the gateway out, backend/backend_worker.h: the queue of descriptors, and
-- how a client is served. What `recv` answers is a list; `none` says that it ran out.
mod Answering
mod Tests
use api_gateway.Prelude.{
  ◌+◌, drop, true, double_crlf, false, ◌||◌, Option, bytes, find, length, Bool, Bytes, List,
  if◌then◌else◌, ◌++◌, ℕ, ◌∷◌, [], none, some,
}
use api_gateway.Prelude.Decimal.{decimal}

pub record BackendWorkerPool : Type 0 where
  pub queue : List ℕ
  pub stop : Bool

unfoldable pub submit_fd : ℕ → BackendWorkerPool → BackendWorkerPool
submit_fd fd p = record p { queue = p.queue ++ fd ∷ [] }

-- What the loop of a worker does next: handle a descriptor, end, or wait.
pub data Next : Type 0 where
  handles : ℕ → Next
  returns : Next
  sleeps : Next

unfoldable pub next_fd : BackendWorkerPool → Next × BackendWorkerPool
next_fd p = elim p.queue [
  | [] ↦ if p.stop then (returns, p) else (sleeps, p)
  | fd ∷ rest ↦ (handles fd, record p { queue = rest })
]

-- A piece of a request, the end of the stream, or an error.
pub data ClientAnswer : Type 0 where
  got : Bytes → ClientAnswer
  closed : ClientAnswer
  failed : ClientAnswer

unfoldable pub has_text : Bytes → Bytes → Bool
has_text p s = elim (find p s) [ none ↦ false | some i ↦ true ]

unfoldable pub body_of : Bytes → Bytes
body_of req_buf = elim (find double_crlf req_buf) [ none ↦ [] | some i ↦ drop (i + 4) req_buf ]

unfoldable pub client_closes : Bytes → Bool
unfolding has_text
client_closes req_buf =
    has_text (bytes "\r\nConnection: close") req_buf
    || has_text (bytes "\r\nconnection: close") req_buf

unfoldable pub answer_body : Bytes → Bytes → Bytes
answer_body service_name body =
    bytes "{\"service\":\"" ++ service_name ++ bytes "\",\"body\":\"" ++ body ++ bytes "\"}"

-- The answer up to its empty line.
unfoldable pub answer_head : Bool → ℕ → Bytes
unfolding decimal
answer_head client_close size =
    bytes "HTTP/1.1 200 OK\r\nContent-Type: application/json\r\n"
    ++ (if client_close then bytes "Connection: close" else bytes "Connection: keep-alive")
    ++ bytes "\r\nContent-Length: "
    ++ decimal size

unfoldable pub answer_to : Bytes → Bytes → Bytes
unfolding answer_body answer_head body_of client_closes
answer_to service_name req_buf =
    let resp_body = answer_body service_name (body_of req_buf) in
    answer_head (client_closes req_buf) (length resp_body) ++ double_crlf ++ resp_body

-- The answers that are sent until the connection is closed. What is left of a request's text when
-- it has been answered is thrown away.
unfoldable pub serve_client :
    (Bytes → Bytes) → List ClientAnswer → Bytes → List Bytes → Option (List Bytes)
unfolding has_text client_closes
serve_client answer [] req_buf sent = none
serve_client answer (closed ∷ answers) req_buf sent = some sent
serve_client answer (failed ∷ answers) req_buf sent = some sent
serve_client answer (got s ∷ answers) req_buf sent =
    let grown = req_buf ++ s in
    let replied = sent ++ answer grown ∷ [] in
    elim (has_text double_crlf grown) [
      | false ↦ serve_client answer answers grown sent
      | true ↦ elim (client_closes grown) [
        | true ↦ some replied
        | false ↦ serve_client answer answers [] replied
      ]
    ]

unfoldable pub handle_client_keepalive : Bytes → List ClientAnswer → Option (List Bytes)
unfolding serve_client answer_to
handle_client_keepalive service_name answers = serve_client (answer_to service_name) answers [] []
