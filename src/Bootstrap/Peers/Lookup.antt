-- ===== src/Bootstrap/Peers/Lookup.antt =====
-- src/core/bootstrap/bootstrap.cc: the sockets for receiving are one map, whatever the order in which
-- the connections come.
use mscclpp.Base.{
  ◌≡◌, refl, sym, ap, ap₂, ◌∙◌, ◌⊎◌, inl, inr, true, false, List, [], ◌∷◌, Option, none, some,
  Bool-cases, Option-cases, arith,
}
use mscclpp.Bootstrap.Peers.{Key, same_key, find_socket, Peers, accept_loop, get_peer_recv_socket}

same_key_sym : (j k : Key) → same_key j k ≡ same_key k j
same_key_sym j k = ground arith

same_key_self : (k : Key) → same_key k k ≡ true
same_key_self k = ground arith

same_key-eq : (j k : Key) → same_key j k ≡ true → j ≡ k
same_key-eq j k h =
    let p : j.peer ≡ k.peer = ground arith in
    let t : j.tag ≡ k.tag = ground arith in ap₂ (λ p t. record { peer = p; tag = t }) p t

module _ {S : Type 0} where
  -- The socket of a key, accepted or not
  abbrev pub or_socket : Option S → Option S → Option S
  or_socket none other = other
  or_socket (some sock) other = some sock

  abbrev pub socket_of : Peers S → Key → Option S
  socket_of s k = or_socket (find_socket k s.recv_sockets) (find_socket k s.backlog)

  -- No two connections have one key.
  abbrev pub Apart : List (Key × S) → List (Key × S) → Type 0
  Apart cache [] = Unit
  Apart cache ((k, sock) ∷ rest) =
      (find_socket k cache ≡ none) × (find_socket k rest ≡ none) × Apart cache rest

  abbrev pub IsDistinct : Peers S → Type 0
  IsDistinct s = Apart s.recv_sockets s.backlog

  find-cons_ne :
      (k j : Key) (sock : S) (l : List (Key × S))
      → find_socket k ((j, sock) ∷ l) ≡ none
      → (same_key j k ≡ false) × (find_socket k l ≡ none)
  find-cons_ne k j sock l h = elim (Bool-cases (same_key j k)) [
    | inl t ↦ let h' = rw t at h in absurd cc
    | inr t ↦ let h' = rw t at h in (t, h')
  ]

  Apart-cons :
      (j : Key) (sock : S) (cache rest : List (Key × S))
      → find_socket j rest ≡ none
      → Apart cache rest
      → Apart ((j, sock) ∷ cache) rest
  Apart-cons j sock cache [] h a = tt
  Apart-cons j sock cache ((i, s) ∷ rest) h (new, other, a) =
      let (ne, h') = find-cons_ne j i s rest h in
      (rw (same_key_sym j i, ne) new, other, Apart-cons j sock cache rest h' a)

  -- Accepting a connection does not change the socket of any key.
  accept_same :
      (j : Key) (sock : S) (cache rest : List (Key × S))
      → find_socket j cache ≡ none
      → (i : Key)
      → or_socket (find_socket i ((j, sock) ∷ cache)) (find_socket i rest)
        ≡ or_socket (find_socket i cache) (find_socket i ((j, sock) ∷ rest))
  accept_same j sock cache rest h i = elim (Bool-cases (same_key j i)) [
    | inl t ↦
        let none_i : find_socket i cache ≡ none =
          ap (λ k. find_socket k cache) (sym (same_key-eq j i t)) ∙ h in
        rw (t, none_i) refl
    | inr t ↦ rw t refl
  ]

  -- The loop waits, or it returns the socket of the key among the connections and keeps all others.
  abbrev Looked : Key → List (Key × S) → List (Key × S) → Option (S × Peers S) → Type 0
  Looked k cache backlog outcome =
      (find_socket k backlog ≡ none) × (outcome ≡ none)
      ⊎ ((sock : S) × (t : Peers S) × (find_socket k backlog ≡ some sock)
          × (outcome ≡ some (sock, t))
          × ((j : Key) → socket_of t j ≡ or_socket (find_socket j cache) (find_socket j backlog))
          × IsDistinct t)

  accept_loop-Looked :
      (k : Key) (cache backlog : List (Key × S))
      → find_socket k cache ≡ none
      → Apart cache backlog
      → Looked k cache backlog (accept_loop k cache backlog)
  unfolding accept_loop
  accept_loop-Looked k cache [] h a = inl (refl, refl)
  accept_loop-Looked k cache ((j, sock) ∷ rest) h (new, other, a) =
      elim (Bool-cases (same_key j k)) [
        | inl t ↦ rw t (
            inr (
              sock,
              record { recv_sockets = (j, sock) ∷ cache; backlog = rest },
              refl,
              refl,
              accept_same j sock cache rest new,
              Apart-cons j sock cache rest other a,
            ))
        | inr t ↦
            let fresh : find_socket k ((j, sock) ∷ cache) ≡ none = rw t h in
            rw t
              (elim (accept_loop-Looked k ((j, sock) ∷ cache) rest fresh
                (Apart-cons j sock cache rest other a)) [
                  | inl waits ↦ inl waits
                  | inr (x, u, found, out, same, d) ↦
                      inr (x, u, found, out, λ i. same i ∙ accept_same j sock cache rest new i, d)
                ])
      ]

  -- While no two connections have one peer and tag, `getPeerRecvSocket` either waits, when there is no
  -- connection of its peer and tag, accepted or not, or returns that connection; and the connection of
  -- every peer and tag stays the same.
  pub get_peer_recv_socket_lem :
      (k : Key) (s : Peers S)
      → IsDistinct s
      → (socket_of s k ≡ none) × (get_peer_recv_socket k s ≡ none)
        ⊎ ((sock : S) × (t : Peers S) × (socket_of s k ≡ some sock)
            × (get_peer_recv_socket k s ≡ some (sock, t))
            × ((j : Key) → socket_of t j ≡ socket_of s j)
            × IsDistinct t)
  unfolding get_peer_recv_socket
  get_peer_recv_socket_lem k s d = elim (Option-cases (find_socket k s.recv_sockets)) [
    | inl none_k ↦ rw none_k (accept_loop-Looked k s.recv_sockets s.backlog none_k d)
    | inr (sock, h) ↦ rw h (inr (sock, s, refl, refl, λ j. refl, d))
  ]
