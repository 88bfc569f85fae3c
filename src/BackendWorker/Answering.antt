-- ===== src/BackendWorker/Answering.antt =====
-- A client that sends whole requests, one at a time, in backend/backend_worker.h.
use api_gateway.Prelude.{
  sym, refl, append_assoc, ap, false, ◌∙◌, append-nil, true, ◌≡◌, ◌++◌, All, map, Bytes, List, ◌∷◌,
  [], some,
}
use api_gateway.BackendWorker.{
  double_crlf, got, closed, ClientAnswer, has_text, client_closes, answer_to, serve_client,
  handle_client_keepalive,
}

-- Each request has an empty line, and does not ask to close the connection.
abbrev AreKept : List Bytes → Type 0
AreKept = All (λ req. (has_text double_crlf req ≡ true) × (client_closes req ≡ false))

module _ (answer : Bytes → Bytes) where
  serve_client-request :
      (req : Bytes) (answers : List ClientAnswer) (sent : List Bytes)
      → has_text double_crlf req ≡ true
      → client_closes req ≡ false
      → serve_client answer (got req ∷ answers) [] sent
        ≡ serve_client answer answers [] (sent ++ answer req ∷ [])
  unfolding serve_client
  serve_client-request req answers sent h k = rw (h, k, serve_client) refl

  serve_client-kept :
      (reqs : List Bytes) (rest : List ClientAnswer) (sent : List Bytes)
      → AreKept reqs
      → serve_client answer (map got reqs ++ closed ∷ rest) [] sent ≡ some (sent ++ map answer reqs)
  unfolding serve_client
  serve_client-kept [] rest sent h = ap some (sym (append-nil sent))
  serve_client-kept (req ∷ reqs) rest sent h =
      serve_client-request req (map got reqs ++ closed ∷ rest) sent h.0.0 h.0.1
      ∙ serve_client-kept reqs rest (sent ++ answer req ∷ []) h.1
      ∙ ap some (append_assoc sent (answer req ∷ []) (map answer reqs))

-- A client that sends whole requests, each in one piece that ends with its own text, and asks with
-- none of them to close the connection, gets an answer to each, in order, until it closes the
-- connection itself.
pub handle_client_keepalive-kept :
    (service_name : Bytes) (reqs : List Bytes) (rest : List ClientAnswer)
    → AreKept reqs
    → handle_client_keepalive service_name (map got reqs ++ closed ∷ rest)
      ≡ some (map (answer_to service_name) reqs)
unfolding handle_client_keepalive
handle_client_keepalive-kept service_name reqs rest h =
    serve_client-kept (answer_to service_name) reqs rest [] h
