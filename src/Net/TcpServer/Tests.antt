-- ===== src/Net/TcpServer/Tests.antt =====
-- Runs of the listening socket.
use api_gateway.Prelude.{refl, ◌≡◌, false, true, ◌∷◌, [], some}
use api_gateway.Prelude.Int.{pos, negsuc}
use api_gateway.Net.TcpServer.{taken, again, create_listen_socket, on_accept}

-- A socket that cannot be bound is closed.
unbound :
    create_listen_socket
      (record { fd = pos 5; bound = false; listening = true; nonblocking = true })
    ≡ (negsuc 0, pos 5 ∷ [])
unfolding create_listen_socket
unbound = refl

two_taken :
    on_accept true (taken 7 true ∷ taken 8 false ∷ again ∷ [])
    ≡ some (record { handed = 7 ∷ []; closed = 8 ∷ [] })
unfolding on_accept
two_taken = refl
