-- ===== src/Bootstrap/Peers.antt =====
-- src/core/bootstrap/bootstrap.cc: the sockets that `getPeerRecvSocket` and `getPeerSendSocket` keep
-- for a peer and a tag. Connections wait at the listening socket in the order in which they are
-- accepted, each with the two numbers that its sender wrote first.
pub mod Lookup
mod Tests
use mscclpp.Base.{
  ℕ, ◌+◌, Bool, true, false, ◌&&◌, List, [], ◌∷◌, Option, none, some, ◌==◌, if◌then◌else◌, length,
}

pub record Key : Type 0 where
  pub peer : ℕ
  pub tag : ℕ

abbrev pub same_key : Key → Key → Bool
same_key j k = (j.peer == k.peer) && (j.tag == k.tag)

-- `find` in `peerRecvSockets_` and `peerSendSockets_`; `S` are sockets.
abbrev pub find_socket {ℓ} : {S : Type ℓ} → Key → List (Key × S) → Option S
find_socket k [] = none
find_socket k ((j, sock) ∷ rest) =
    let later = find_socket k rest in if same_key j k then some sock else later

pub record Peers (S : Type 0) : Type 0 where
  pub recv_sockets : List (Key × S)
  pub backlog : List (Key × S)

module _ {S : Type 0} where
  -- The loop of `getPeerRecvSocket`; none when it waits for a connection.
  unfoldable pub accept_loop : Key → List (Key × S) → List (Key × S) → Option (S × Peers S)
  accept_loop k cache [] = none
  accept_loop k cache ((j, sock) ∷ rest) =
      let next = accept_loop k ((j, sock) ∷ cache) rest in
      if same_key j k
      then some (sock, record { recv_sockets = (j, sock) ∷ cache; backlog = rest })
      else next

  abbrev pub recv_socket_or : Key → Peers S → Option S → Option (S × Peers S)
  recv_socket_or k s (some sock) = some (sock, s)
  recv_socket_or k s none = accept_loop k s.recv_sockets s.backlog

  -- `getPeerRecvSocket`
  unfoldable pub get_peer_recv_socket : Key → Peers S → Option (S × Peers S)
  get_peer_recv_socket k s = recv_socket_or k s (find_socket k s.recv_sockets)

-- The sending side: its sockets, numbered in the order of their `connect`, and what it wrote first on
-- each.
pub record Sender : Type 0 where
  pub send_sockets : List (Key × ℕ)
  pub hellos : List Key

abbrev pub send_socket_or : Key → Sender → Option ℕ → ℕ × Sender
send_socket_or k s (some sock) = (sock, s)
send_socket_or k s none =
    let sock = length s.hellos in
    (sock, record { send_sockets = (k, sock) ∷ s.send_sockets; hellos = k ∷ s.hellos })

-- `getPeerSendSocket`
unfoldable pub get_peer_send_socket : Key → Sender → ℕ × Sender
get_peer_send_socket k s = send_socket_or k s (find_socket k s.send_sockets)
