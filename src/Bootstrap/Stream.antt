-- ===== src/Bootstrap/Stream.antt =====
-- src/core/bootstrap/bootstrap.cc: the messages of `netSend` and `netRecv` on the bytes of a socket,
-- and the vectors of `Bootstrap::send` and `recv`. A socket keeps the bytes in order; `Socket::recv`
-- waits until it has all the bytes that it is asked for.
pub mod Messages
mod Tests
use mscclpp.Base.{
  ℕ, zero, suc, ◌+◌, ◌^◌, min, Bool, List, [], ◌∷◌, ◌++◌, Option, none, some, ltb, if◌then◌else◌,
  length, ErrorCode, invalid_usage, word_bytes, bytes_word, split_bytes, u64,
}

-- A call of `netRecv` waits, throws or returns; the bytes are those left in the socket.
pub data Received (A : Type 0) : Type 0 where
  waiting : Received A
  threw : (code : ErrorCode) → (rest : List ℕ) → Received A
  received : (data_in : A) → (rest : List ℕ) → Received A

-- `netSend` of the first `size` bytes at `data`
unfoldable pub net_send : List ℕ → List ℕ → List ℕ
net_send sock bytes = (sock ++ word_bytes 4 (length bytes)) ++ bytes

-- An `int` in a comparison with one that is not negative, and as a number of bytes: a negative one
-- is like 0.
abbrev pub int_size : ℕ → ℕ
int_size raw = if ltb raw (2 ^ 31) then raw else 0

abbrev pub arrived : Option (List ℕ × List ℕ) → Received (List ℕ)
arrived none = waiting
arrived (some (taken, rest)) = received taken rest

-- `Socket::recv` of `k` bytes
abbrev pub recv_bytes : ℕ → List ℕ → Received (List ℕ)
recv_bytes k sock = arrived (split_bytes k sock)

abbrev pub then_recv :
    {A : Type 0} → Received (List ℕ) → (List ℕ → List ℕ → Received A) → Received A
then_recv waiting next = waiting
then_recv (threw code rest) next = threw code rest
then_recv (received bytes rest) next = next bytes rest

-- `netRecv`
unfoldable pub net_recv : ℕ → List ℕ → Received (List ℕ)
net_recv size sock = then_recv (recv_bytes 4 sock) λ header rest.
    let recv_size = int_size (bytes_word header) in
    if ltb size recv_size then threw invalid_usage rest else recv_bytes (min recv_size size) rest

-- `Bootstrap::send` of a vector: its size, then its bytes
unfoldable pub send_vector : List ℕ → List ℕ → List ℕ
send_vector sock bytes = net_send (net_send sock (word_bytes 8 (u64 (length bytes)))) bytes

-- `Bootstrap::recv` into a vector
unfoldable pub recv_vector : List ℕ → Received (List ℕ)
recv_vector sock = then_recv (net_recv 8 sock) λ size rest. net_recv (bytes_word size) rest
