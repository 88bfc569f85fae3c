-- ===== src/Proxy/BackendConnection/Ending.antt =====
-- A poll that times out ends the loops of `send_all` and `recv_all`.
use api_gateway.Prelude.{
  ℕ, Bool, some, List, [], ◌∷◌, ◌++◌, ◌≡◌, refl, Bytes, Bool-cases, inl, inr, ltb, take, drop,
}
use api_gateway.Proxy.BackendConnection.{
  BackendConnection, Receiving, SendAnswer, unwritable, sent, would_block, send_failed, RecvAnswer,
  quiet, got, ended, not_yet, broken, send_loop, send_all, recv_loop, recv_all, has_response,
  take_chunk, nothing_received, is_open,
}

recv_loop_ends :
    (answers : List RecvAnswer) (r : Receiving)
    → (out : Receiving × Bool) × (recv_loop (answers ++ quiet ∷ []) r ≡ some out)
unfolding recv_loop
recv_loop_ends [] r = (_, refl)
recv_loop_ends (quiet ∷ answers) r = (_, refl)
recv_loop_ends (got s ∷ answers) r = elim (Bool-cases (has_response (take_chunk s r))) [
  | inl whole ↦ rw (whole, recv_loop) (_, refl)
  | inr part ↦ rw (part, recv_loop) (recv_loop_ends answers (take_chunk s r))
]
recv_loop_ends (ended ∷ answers) r = (_, refl)
recv_loop_ends (not_yet ∷ answers) r = recv_loop_ends answers r
recv_loop_ends (broken ∷ answers) r = (_, refl)

pub send_loop_ends :
    (answers : List SendAnswer) (out data_ : Bytes)
    → (result : Bytes × Bool) × (send_loop (answers ++ unwritable ∷ []) out data_ ≡ some result)
unfolding send_loop
send_loop_ends [] out [] = (_, refl)
send_loop_ends [] out (d ∷ ds) = (_, refl)
send_loop_ends (a ∷ answers) out [] = (_, refl)
send_loop_ends (unwritable ∷ answers) out (d ∷ ds) = (_, refl)
send_loop_ends (sent n ∷ answers) out (d ∷ ds) = elim (Bool-cases (ltb 0 n)) [
  | inl positive ↦
      rw (positive, send_loop) (send_loop_ends answers (out ++ take n (d ∷ ds)) (drop n (d ∷ ds)))
  | inr nothing ↦ rw (nothing, send_loop) (_, refl)
]
send_loop_ends (would_block ∷ answers) out (d ∷ ds) = send_loop_ends answers out (d ∷ ds)
send_loop_ends (send_failed ∷ answers) out (d ∷ ds) = (_, refl)

pub recv_all_ends :
    (now : ℕ) (answers : List RecvAnswer) (c : BackendConnection)
    → (r : BackendConnection × Bytes) × (recv_all now (answers ++ quiet ∷ []) c ≡ some r)
unfolding recv_all
recv_all_ends now answers c = elim (Bool-cases (is_open c.fd)) [
  | inl good ↦ rw (good, (recv_loop_ends answers nothing_received).1) (_, refl)
  | inr bad ↦ rw bad (_, refl)
]

pub send_all_ends :
    (answers : List SendAnswer) (data_ : Bytes) (c : BackendConnection)
    → (r : Bytes × Bool) × (send_all (answers ++ unwritable ∷ []) data_ c ≡ some r)
unfolding send_all
send_all_ends answers data_ c = elim (Bool-cases (is_open c.fd)) [
  | inl good ↦ rw good (send_loop_ends answers [] data_)
  | inr bad ↦ rw bad (_, refl)
]
