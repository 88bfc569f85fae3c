-- ===== src/Net/TcpServer.antt =====
-- The listening socket, src/net/tcp_server.cpp and `create_listen_socket` of src/net/socket.cpp.
-- What the system calls answer are arguments.
mod Accepting
mod Tests
use api_gateway.Prelude.{◌++◌, not, Option, if◌then◌else◌, Bool, List, ℕ, ◌∷◌, [], none, some}
use api_gateway.Prelude.Int.{ℤ, pos, negsuc}

-- What `socket`, `bind`, `listen` and `fcntl` answer.
pub record ListenAnswers : Type 0 where
  pub fd : ℤ
  pub bound : Bool
  pub listening : Bool
  pub nonblocking : Bool

-- The descriptor, and those that have been closed.
unfoldable pub create_listen_socket : ListenAnswers → ℤ × List ℤ
create_listen_socket a = elim a.fd [
  | negsuc n ↦ (negsuc 0, [])
  | pos n ↦
      if not a.bound
      then (negsuc 0, pos n ∷ [])
      else if not a.listening
      then (negsuc 0, pos n ∷ [])
      else if not a.nonblocking
      then (negsuc 0, pos n ∷ [])
      else (pos n, [])
]

-- A round of the loop of `on_accept`: a new descriptor, and whether it can be made non-blocking;
-- no connection waits; the descriptors are used up; another error.
pub data AcceptAnswer : Type 0 where
  taken : ℕ → Bool → AcceptAnswer
  again : AcceptAnswer
  exhausted : AcceptAnswer
  broken : AcceptAnswer

-- The descriptors that the callback has got, and those that were closed.
pub record Accepted : Type 0 where
  pub handed : List ℕ
  pub closed : List ℕ

unfoldable pub take_fd : Bool → ℕ → Bool → Accepted → Accepted
take_fd has_callback fd ok a =
    if not ok
    then record a { closed = a.closed ++ fd ∷ [] }
    else if has_callback
    then record a { handed = a.handed ++ fd ∷ [] }
    else record a { closed = a.closed ++ fd ∷ [] }

-- `none` says that the answers ran out before the loop ended.
unfoldable pub accept_loop : Bool → List AcceptAnswer → Accepted → Option Accepted
unfolding take_fd
accept_loop has_callback [] a = none
accept_loop has_callback (taken fd ok ∷ answers) a =
    accept_loop has_callback answers (take_fd has_callback fd ok a)
accept_loop has_callback (again ∷ answers) a = some a
accept_loop has_callback (exhausted ∷ answers) a = accept_loop has_callback answers a
accept_loop has_callback (broken ∷ answers) a = some a

unfoldable pub on_accept : Bool → List AcceptAnswer → Option Accepted
unfolding accept_loop
on_accept has_callback answers =
    accept_loop has_callback answers (record { handed = []; closed = [] })
