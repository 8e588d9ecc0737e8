-- ===== src/Bootstrap/Peers/Tests.antt =====
-- src/core/bootstrap/bootstrap.cc: the sockets of peers at concrete inputs.
use mscclpp.Base.{ℕ, ◌≡◌, refl, ◌⊎◌, [], ◌∷◌, none, some}
use mscclpp.Bootstrap.Peers.{Key, Peers, accept_loop, get_peer_recv_socket, get_peer_send_socket}
use mscclpp.Bootstrap.Peers.Lookup.{socket_of, IsDistinct, get_peer_recv_socket_lem}

abbrev key : ℕ → ℕ → Key
key peer tag = record { peer = peer; tag = tag }

-- Rank 2 connected before rank 1 did.
abbrev two_waiting : Peers ℕ
two_waiting = record { recv_sockets = []; backlog = (key 2 0, 20) ∷ (key 1 0, 10) ∷ [] }

-- A call for rank 1 keeps the connection of rank 2 for later.
get_peer_recv_socket_test :
    get_peer_recv_socket (key 1 0) two_waiting
    ≡ some (10, record { recv_sockets = (key 1 0, 10) ∷ (key 2 0, 20) ∷ []; backlog = [] })
unfolding get_peer_recv_socket accept_loop
get_peer_recv_socket_test = refl

get_peer_recv_socket_lem_example :
    (socket_of two_waiting (key 1 0) ≡ none) × (get_peer_recv_socket (key 1 0) two_waiting ≡ none)
    ⊎ ((sock : ℕ) × (t : Peers ℕ) × (socket_of two_waiting (key 1 0) ≡ some sock)
        × (get_peer_recv_socket (key 1 0) two_waiting ≡ some (sock, t))
        × ((j : Key) → socket_of t j ≡ socket_of two_waiting j)
        × IsDistinct t)
get_peer_recv_socket_lem_example =
    get_peer_recv_socket_lem (key 1 0) two_waiting (refl, refl, (refl, refl, tt))

-- A second send to a peer with the same tag does not connect again.
get_peer_send_socket_test :
    get_peer_send_socket
      (key 1 7)
      (record { send_sockets = (key 1 7, 0) ∷ []; hellos = key 1 7 ∷ [] })
    ≡ (0, record { send_sockets = (key 1 7, 0) ∷ []; hellos = key 1 7 ∷ [] })
unfolding get_peer_send_socket
get_peer_send_socket_test = refl
