-- ===== src/Proxy/BackendConnection/Sending.antt =====
-- What `send_all` has sent.
use api_gateway.Proxy.BackendConnection.Ending.{send_all_ends}
use api_gateway.Prelude.{
  subst, ℕ, ◌≡◌, refl, ap, ◌∙◌, sym, Bool, true, false, some, List, [], ◌∷◌, ◌++◌, Bytes, take,
  drop, ltb, Bool-cases, inl, inr, append_assoc, take-append-drop, ◌↔◌,
}
use api_gateway.Proxy.BackendConnection.{
  BackendConnection, SendAnswer, unwritable, sent, would_block, send_failed, send_loop, send_all,
  is_open,
}

-- The bytes sent are a beginning of the text, and all of it exactly if the call succeeds.
abbrev pub IsBeginning : Bytes → Bool → Bytes → Type 0
IsBeginning out done_ text = (rest : Bytes) × (out ++ rest ≡ text) × ((done_ ≡ true) ↔ (rest ≡ []))

stopped : (out : Bytes) (c : ℕ) (cs : Bytes) → IsBeginning out false (out ++ c ∷ cs)
stopped out c cs = (c ∷ cs, refl, ((λ e. cc e), (λ e. cc e)))

settle :
    (text : Bytes) (r q : Bytes × Bool)
    → some r ≡ some q
    → IsBeginning r.0 r.1 text
    → IsBeginning q.0 q.1 text
settle text r q e h = let same : r ≡ q = cc e in subst (λ t. IsBeginning t.0 t.1 text) same h

finished : (out : Bytes) → IsBeginning out true (out ++ [])
finished out = ([], refl, ((λ e. refl), (λ e. refl)))

send_loop-IsBeginning :
    (answers : List SendAnswer) (out rest sent_ : Bytes) (done_ : Bool)
    → send_loop answers out rest ≡ some (sent_, done_)
    → IsBeginning sent_ done_ (out ++ rest)
unfolding send_loop
send_loop-IsBeginning [] out [] sent_ done_ e = settle _ (out, true) (sent_, done_) e (finished out)
send_loop-IsBeginning [] out (c ∷ cs) sent_ done_ e = cc
send_loop-IsBeginning (a ∷ answers) out [] sent_ done_ e =
    settle _ (out, true) (sent_, done_) e (finished out)
send_loop-IsBeginning (unwritable ∷ answers) out (c ∷ cs) sent_ done_ e =
    settle _ (out, false) (sent_, done_) e (stopped out c cs)
send_loop-IsBeginning (sent n ∷ answers) out (c ∷ cs) sent_ done_ e = elim (Bool-cases (ltb 0 n)) [
  | inl some_ ↦
      let onward : send_loop answers (out ++ take n (c ∷ cs)) (drop n (c ∷ cs))
          ≡ some (sent_, done_) =
        sym (rw (some_, send_loop) refl) ∙ e in
      subst (IsBeginning sent_ done_)
        (append_assoc out (take n (c ∷ cs)) (drop n (c ∷ cs))
          ∙ ap (λ t. out ++ t) (take-append-drop n (c ∷ cs)))
        (send_loop-IsBeginning answers (out ++ take n (c ∷ cs)) (drop n (c ∷ cs)) sent_ done_
          onward)
  | inr none_ ↦
      settle _ (out, false) (sent_, done_) (sym (rw (none_, send_loop) refl) ∙ e) (stopped out c cs)
]
send_loop-IsBeginning (would_block ∷ answers) out (c ∷ cs) sent_ done_ e =
    send_loop-IsBeginning answers out (c ∷ cs) sent_ done_ e
send_loop-IsBeginning (send_failed ∷ answers) out (c ∷ cs) sent_ done_ e =
    settle _ (out, false) (sent_, done_) e (stopped out c cs)

-- On an open connection, if it returns: what `send_all` has sent when it returns is a beginning of the data, and
-- all of it exactly if it returns true.
returned-IsBeginning :
    (answers : List SendAnswer) (data_ sent_ : Bytes) (done_ : Bool) (c : BackendConnection)
    → is_open c.fd ≡ true
    → send_all answers data_ c ≡ some (sent_, done_)
    → IsBeginning sent_ done_ data_
unfolding send_all
returned-IsBeginning answers data_ sent_ done_ c o e =
    send_loop-IsBeginning answers [] data_ sent_ done_ (sym (rw o refl) ∙ e)

-- On an open connection, `send_all` returns once a poll times out if not before, and what it has
-- then sent is a beginning of the data, all of it when it returns true and less than all when it
-- returns false.
pub send_all-IsBeginning :
    (answers : List SendAnswer) (data_ : Bytes) (c : BackendConnection)
    → is_open c.fd ≡ true
    → (r : Bytes × Bool) × ((send_all (answers ++ unwritable ∷ []) data_ c ≡ some r)
        × IsBeginning r.0 r.1 data_)
send_all-IsBeginning answers data_ c o =
    let (r, e) = send_all_ends answers data_ c in
    (r, (e, returned-IsBeginning (answers ++ unwritable ∷ []) data_ r.0 r.1 c o e))
