-- ===== src/Memory/Transports.antt =====
-- src/core/registered_memory.cc: the entries of a memory come back from the bytes they are serialised as.
use mathlib.Core.List.{append_assoc}
use mscclpp.Base.{
  ℕ, ◌^◌, ◌<◌, ◌≡◌, refl, ap, subst, false, List, [], ◌∷◌, ◌++◌, map, ok, length, All, word_bytes,
  split_bytes-append, length-word_bytes, bytes_word-word_bytes, arith,
}
use mscclpp.Memory.{
  Transport, unknown, cuda_ipc, ib0, ib1, ib2, ib3, ib4, ib5, ib6, ib7, ethernet, transport_word,
  Kind, ipc, ib, neither, kind_of, TransportInfo, serialize_infos, or_fault, read_bytes, read_word,
  read_transport, read_infos, payload_size, serialize_payload,
}

read_transport-transport_word : (t : Transport) → read_transport (transport_word t) ≡ ok t
read_transport-transport_word unknown = refl
read_transport-transport_word cuda_ipc = refl
read_transport-transport_word ib0 = refl
read_transport-transport_word ib1 = refl
read_transport-transport_word ib2 = refl
read_transport-transport_word ib3 = refl
read_transport-transport_word ib4 = refl
read_transport-transport_word ib5 = refl
read_transport-transport_word ib6 = refl
read_transport-transport_word ib7 = refl
read_transport-transport_word ethernet = refl

transport_word-lt : (t : Transport) → transport_word t < 256 ^ 4
transport_word-lt t = ground arith

read-append : (k : ℕ) (xs ys : List ℕ) → length xs ≡ k → read_bytes k (xs ++ ys) ≡ ok (xs, ys)
read-append k xs ys e =
    subst (λ k. read_bytes k (xs ++ ys) ≡ ok (xs, ys)) e (ap or_fault (split_bytes-append xs ys))

pub read_word-append :
    (k n : ℕ) (ys : List ℕ) → n < 256 ^ k → read_word k (word_bytes k n ++ ys) ≡ ok (n, ys)
unfolding read_word
read_word-append k n ys h =
    rw (read-append k (word_bytes k n) ys (length-word_bytes k n), bytes_word-word_bytes k n h) refl

-- What another process reads of an entry
abbrev pub remote : TransportInfo → TransportInfo
remote entry = record entry { ib_local = false }

module _ (handle_size ib_mr_info_size : ℕ) where
  -- An entry with a transport that `serialize` knows, and the bytes of the size of its structure
  abbrev HasSize : Kind → List ℕ → Type 0
  HasSize ipc payload = length payload ≡ handle_size
  HasSize ib payload = length payload ≡ ib_mr_info_size
  HasSize neither payload = ⊥

  abbrev pub IsEntry : TransportInfo → Type 0
  IsEntry entry = HasSize (kind_of entry.transport) entry.payload

  -- Such an entry is serialised, and its size is found again.
  payload_size-serialize_payload :
      (k : Kind) (payload : List ℕ)
      → HasSize k payload
      → (size : ℕ) × (payload_size handle_size ib_mr_info_size k ≡ ok size)
        × (length payload ≡ size)
        × (serialize_payload k payload ≡ ok payload)
  payload_size-serialize_payload ipc payload h = (handle_size, refl, h, refl)
  payload_size-serialize_payload ib payload h = (ib_mr_info_size, refl, h, refl)
  payload_size-serialize_payload neither payload h = absurd h

  pub read_infos-serialize_infos :
      (infos : List TransportInfo)
      → All IsEntry infos
      → (bytes : List ℕ) × (serialize_infos infos ≡ ok bytes)
        × ((rest : List ℕ)
            → read_infos handle_size ib_mr_info_size (length infos) (bytes ++ rest)
              ≡ ok (map remote infos, rest))
  unfolding serialize_infos read_infos
  read_infos-serialize_infos [] h = ([], refl, λ rest. refl)
  read_infos-serialize_infos (entry ∷ infos) (h, hs) =
      let (bytes, e, back) = read_infos-serialize_infos infos hs in
      let t = entry.transport in
      let (size, sized, fits, written) =
        payload_size-serialize_payload (kind_of t) entry.payload h in
      let word = word_bytes 4 (transport_word t) in
      (
        word ++ (entry.payload ++ bytes),
        rw (written, e) refl,
        λ rest.
            rw
              (
                append_assoc word (entry.payload ++ bytes) rest,
                append_assoc entry.payload bytes rest,
                read_word-append 4 (transport_word t) (entry.payload ++ (bytes ++ rest))
                    (transport_word-lt t),
                read_transport-transport_word t,
                sized,
                read-append size entry.payload (bytes ++ rest) fits,
                back rest,
              )
              refl,
      )
