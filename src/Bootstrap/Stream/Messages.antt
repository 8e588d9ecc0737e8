-- ===== src/Bootstrap/Stream/Messages.antt =====
-- src/core/bootstrap/bootstrap.cc: messages come out of a socket as they went in.
use mathlib.Core.List.{append_assoc}
use mscclpp.Base.{
  ℕ, ◌^◌, ◌<◌, ◌≡◌, refl, sym, ap, ◌∙◌, subst, min, List, [], ◌++◌, ltb, ltb_self, Bool-cases, inl,
  inr, lt→ltb, if◌then◌else◌, length, invalid_usage, word_bytes, bytes_word, split_bytes-append,
  length-word_bytes, bytes_word-word_bytes, u64, arith,
}
use mscclpp.Bootstrap.Stream.{
  threw, received, net_send, arrived, recv_bytes, net_recv, send_vector, recv_vector,
}

-- A message as bytes
abbrev pub frame : List ℕ → List ℕ
frame bytes = word_bytes 4 (length bytes) ++ bytes

pub net_send-frame : (sock bytes : List ℕ) → net_send sock bytes ≡ sock ++ frame bytes
unfolding net_send
net_send-frame sock bytes = append_assoc sock (word_bytes 4 (length bytes)) bytes

recv_bytes-append :
    (k : ℕ) (xs ys : List ℕ) → length xs ≡ k → recv_bytes k (xs ++ ys) ≡ received xs ys
recv_bytes-append k xs ys e =
    subst (λ k. recv_bytes k (xs ++ ys) ≡ received xs ys) e (ap arrived (split_bytes-append xs ys))

pub net_recv-frame :
    (size : ℕ) (bytes rest : List ℕ)
    → length bytes < 2 ^ 31
    → net_recv size (frame bytes ++ rest) ≡ (
        if ltb size (length bytes)
        then threw invalid_usage (bytes ++ rest)
        else received bytes rest)
unfolding net_recv
net_recv-frame size bytes rest h =
    let header = word_bytes 4 (length bytes) in
    rw
      (
        append_assoc header bytes rest,
        recv_bytes-append 4 header (bytes ++ rest) (length-word_bytes 4 (length bytes)),
        bytes_word-word_bytes 4 (length bytes) (omega arith),
        lt→ltb (length bytes) (2 ^ 31) h,
      )
      (elim (Bool-cases (ltb size (length bytes))) [
        | inl t ↦ rw t refl
        | inr t ↦
            let e : min (length bytes) size ≡ length bytes = ground arith in
            rw (t, recv_bytes-append (min (length bytes) size) bytes rest (sym e)) refl
      ])

-- A vector of less than 2^31 bytes comes back from the socket as it was sent, whatever follows it.
pub recv_vector-send_vector :
    (bytes rest : List ℕ)
    → length bytes < 2 ^ 31
    → recv_vector (send_vector [] bytes ++ rest) ≡ received bytes rest
unfolding recv_vector send_vector
recv_vector-send_vector bytes rest h =
    let size = word_bytes 8 (u64 (length bytes)) in
    let e : length size ≡ 8 = length-word_bytes 8 (u64 (length bytes)) in
    let back : bytes_word size ≡ length bytes =
      bytes_word-word_bytes 8 (u64 (length bytes)) (omega arith) ∙ omega arith in
    rw
      (
        net_send-frame [] size,
        net_send-frame (frame size) bytes,
        append_assoc (frame size) (frame bytes) rest,
        net_recv-frame 8 size (frame bytes ++ rest) (omega arith),
        e,
        back,
        net_recv-frame (length bytes) bytes rest h,
        ltb_self (length bytes),
      )
      refl
