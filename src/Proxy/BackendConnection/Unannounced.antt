-- ===== src/Proxy/BackendConnection/Unannounced.antt =====
-- What `recv_all` of src/proxy/backend.cpp does with a response that announces no length.
use api_gateway.Prelude.{
  ◌+◌, ℕ, ◌≡◌, refl, ap, ◌∙◌, sym, true, false, none, some, List, ◌∷◌, [], ◌++◌, map, Bytes, length,
  take, find, double_crlf, joined, arith, append_assoc, le→leb,
}
use api_gateway.Prelude.Finding.{find-append-none, find-le}
use api_gateway.Proxy.BackendConnection.{
  BackendConnection, RecvAnswer, got, Receiving, nothing_received, announced, has_response,
  take_chunk, recv_loop, recv_result, recv_all, is_open, touch,
}
use api_gateway.Proxy.BackendConnection.Framing.{
  take_chunk-lem, note_length-missing, note_length-found, recv_loop-stop, recv_loop-more,
}

-- A piece with which the head has not ended is kept, and the loop goes on.
recv_loop_headless :
    (s : Bytes) (answers : List RecvAnswer) (r : Receiving)
    → r.content_length ≡ none
    → find double_crlf (r.resp ++ s) ≡ none
    → let fed = record r { resp = r.resp ++ s; got_data = true; header_end = none } in
      recv_loop (got s ∷ answers) r ≡ recv_loop answers fed
unfolding has_response
recv_loop_headless s answers r c missing =
    let fed = record r { resp = r.resp ++ s; got_data = true; header_end = none } in
    let kept : take_chunk s r ≡ fed =
      take_chunk-lem s r
      ∙ note_length-missing (record r { resp = r.resp ++ s; got_data = true }) c missing in
    recv_loop-more s answers r (ap has_response kept ∙ ground arith) ∙ ap (recv_loop answers) kept

-- With the piece in which the head ends the loop ends.
recv_loop_ended :
    (s : Bytes) (i : ℕ) (answers : List RecvAnswer) (r : Receiving)
    → r.content_length ≡ none
    → find double_crlf (r.resp ++ s) ≡ some i
    → announced (take i (r.resp ++ s)) ≡ 0
    → (q : Receiving) × (recv_loop (got s ∷ answers) r ≡ some (q, false))
      × (q.resp ≡ r.resp ++ s)
      × (q.got_data ≡ true)
unfolding has_response
recv_loop_ended s i answers r c found zero_ =
    let fed = record r { resp = r.resp ++ s; got_data = true } in
    let q = record fed {
      header_end = some i;
      content_length = some (announced (take i (r.resp ++ s)));
    } in
    let kept : take_chunk s r ≡ q = take_chunk-lem s r ∙ note_length-found fed i c found in
    let full : has_response q ≡ true =
      rw
        (
          zero_,
          le→leb (i + 4 + 0) (length (r.resp ++ s))
              (omega (arith, find-le double_crlf (r.resp ++ s) i found)),
        )
        refl in
    (
      take_chunk s r,
      recv_loop-stop s answers r (ap has_response kept ∙ full),
      ap (λ t. t.resp) kept,
      ap (λ t. t.got_data) kept,
    )

recv_loop-pieces :
    (prior : List Bytes) (s : Bytes) (i : ℕ) (answers : List RecvAnswer) (r : Receiving)
    → r.content_length ≡ none
    → find double_crlf (r.resp ++ joined prior) ≡ none
    → find double_crlf (r.resp ++ (joined prior ++ s)) ≡ some i
    → announced (take i (r.resp ++ (joined prior ++ s))) ≡ 0
    → (q : Receiving) × (recv_loop (map got prior ++ got s ∷ answers) r ≡ some (q, false))
      × (q.resp ≡ r.resp ++ (joined prior ++ s))
      × (q.got_data ≡ true)
recv_loop-pieces [] s i answers r c missing found zero_ =
    recv_loop_ended s i answers r c found zero_
recv_loop-pieces (t ∷ prior) s i answers r c missing found zero_ =
    let fed = record r { resp = r.resp ++ t; got_data = true; header_end = none } in
    let whole : r.resp ++ (joined (t ∷ prior) ++ s) ≡ fed.resp ++ (joined prior ++ s) =
      ap (λ x. r.resp ++ x) (append_assoc t (joined prior) s)
      ∙ sym (append_assoc r.resp t (joined prior ++ s)) in
    let before : find double_crlf (fed.resp ++ joined prior) ≡ none =
      rw (append_assoc r.resp t (joined prior)) missing in
    let (q, run, text, data_) =
      recv_loop-pieces prior s i answers fed c before (rw⁻¹ whole found) (rw⁻¹ whole zero_) in
    (
      q,
      recv_loop_headless t (map got prior ++ got s ∷ answers) r c
            (find-append-none double_crlf fed.resp (joined prior) before)
          ∙ run,
      text ∙ sym whole,
      data_,
    )

-- On an open connection, when the head of a response ends within some piece and announces no
-- length, or 0, `recv_all` returns exactly what has arrived up to that piece and with it:
-- whatever the pieces, nothing that comes later is read.
pub recv_all_unannounced :
    (now : ℕ) (prior : List Bytes) (s : Bytes) (i : ℕ) (more : List RecvAnswer)
    (c : BackendConnection)
    → is_open c.fd ≡ true
    → find double_crlf (joined prior) ≡ none
    → find double_crlf (joined prior ++ s) ≡ some i
    → announced (take i (joined prior ++ s)) ≡ 0
    → recv_all now (map got prior ++ got s ∷ more) c ≡ some (touch now c, joined prior ++ s)
unfolding recv_all recv_result
recv_all_unannounced now prior s i more c o missing found zero_ =
    let (q, run, text, data_) =
      recv_loop-pieces prior s i more nothing_received refl missing found zero_ in
    ground (arith, run, text, data_)
