-- ===== src/Bootstrap/Stream/Tests.antt =====
-- src/core/bootstrap/bootstrap.cc: messages at concrete inputs.
use mscclpp.Base.{◌≡◌, refl, [], ◌∷◌, ◌++◌, invalid_usage, bytes_word, split_bytes, arith}
use mscclpp.Bootstrap.Stream.{waiting, threw, received, net_recv, send_vector, recv_vector}
use mscclpp.Bootstrap.Stream.Messages.{recv_vector-send_vector}

-- A message too long for the receiver is an error, and only its length is taken from the socket.
net_recv_too_long : net_recv 1 (2 ∷ 0 ∷ 0 ∷ 0 ∷ 7 ∷ 8 ∷ []) ≡ threw invalid_usage (7 ∷ 8 ∷ [])
unfolding net_recv split_bytes bytes_word
net_recv_too_long = refl

-- Not all bytes have come.
net_recv_waits : net_recv 4 (2 ∷ 0 ∷ 0 ∷ 0 ∷ 7 ∷ []) ≡ waiting
unfolding net_recv split_bytes bytes_word
net_recv_waits = refl

recv_vector-send_vector_example :
    recv_vector (send_vector [] (1 ∷ 2 ∷ 3 ∷ []) ++ (4 ∷ [])) ≡ received (1 ∷ 2 ∷ 3 ∷ []) (4 ∷ [])
recv_vector-send_vector_example = recv_vector-send_vector (1 ∷ 2 ∷ 3 ∷ []) (4 ∷ []) (omega arith)
