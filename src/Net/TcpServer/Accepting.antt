-- ===== src/Net/TcpServer/Accepting.antt =====
-- What `on_accept` of src/net/tcp_server.cpp does with the connections that wait.
use api_gateway.Prelude.{
  append_assoc, ap, refl, ◌∙◌, append-nil, zero, false, suc, ◌++◌, ◌≡◌, replicate, true, Bool, List,
  ℕ, ◌∷◌, [], none, some,
}
use api_gateway.Net.TcpServer.{
  AcceptAnswer, taken, again, exhausted, take_fd, accept_loop, on_accept,
}

abbrev answers_of : List (ℕ × Bool) → List AcceptAnswer → List AcceptAnswer
answers_of [] rest = rest
answers_of ((fd, ok) ∷ fds) rest = taken fd ok ∷ answers_of fds rest

-- The descriptors that could, or could not, be made non-blocking.
unfoldable pub chosen : Bool → List (ℕ × Bool) → List ℕ
chosen which [] = []
chosen true ((fd, true) ∷ fds) = fd ∷ chosen true fds
chosen true ((fd, false) ∷ fds) = chosen true fds
chosen false ((fd, true) ∷ fds) = chosen false fds
chosen false ((fd, false) ∷ fds) = fd ∷ chosen false fds

accept_loop-chosen :
    (fds : List (ℕ × Bool)) (rest : List AcceptAnswer) (hs cs : List ℕ)
    → accept_loop true (answers_of fds (again ∷ rest)) (record { handed = hs; closed = cs })
      ≡ some (record { handed = hs ++ chosen true fds; closed = cs ++ chosen false fds })
unfolding accept_loop chosen take_fd
accept_loop-chosen [] rest hs cs = rw (append-nil hs, append-nil cs) refl
accept_loop-chosen ((fd, true) ∷ fds) rest hs cs =
    accept_loop-chosen fds rest (hs ++ fd ∷ []) cs
    ∙ ap (λ ts. some (record { handed = ts; closed = cs ++ chosen false fds }))
        (append_assoc hs (fd ∷ []) (chosen true fds))
accept_loop-chosen ((fd, false) ∷ fds) rest hs cs =
    accept_loop-chosen fds rest hs (cs ++ fd ∷ [])
    ∙ ap (λ ts. some (record { handed = hs ++ chosen true fds; closed = ts }))
        (append_assoc cs (fd ∷ []) (chosen false fds))

-- With a callback, `on_accept` takes all the connections that wait, in order, up to the answer that
-- none waits: it hands over those that can be made non-blocking and closes the others.
pub on_accept-chosen :
    (fds : List (ℕ × Bool)) (rest : List AcceptAnswer)
    → on_accept true (answers_of fds (again ∷ rest))
      ≡ some (record { handed = chosen true fds; closed = chosen false fds })
unfolding on_accept
on_accept-chosen fds rest = accept_loop-chosen fds rest [] []

-- While the descriptors are used up the loop does not end, however often it asks.
pub on_accept-exhausted :
    (has_callback : Bool) (n : ℕ) → on_accept has_callback (replicate n exhausted) ≡ none
unfolding on_accept accept_loop
on_accept-exhausted has_callback zero = refl
on_accept-exhausted has_callback (suc n) = on_accept-exhausted has_callback n
