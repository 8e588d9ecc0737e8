-- ===== src/Memory/Opening.antt =====
-- src/core/registered_memory.cc: a registered memory, serialised and opened by any process.
use mathlib.Core.List.{append-nil}
use mscclpp.Base.{
  bit_and, Bool, true, false, ◌∙◌, ap, some, not, err, ◌/◌, ◌%◌, ℕ, ◌^◌, ◌<◌, ◌≤◌, ◌≡◌, refl, ◌&&◌,
  Bool-cases, inl, inr, List, [], ◌∷◌, ◌++◌, map, Option, none, Result, ok, ◌>>=◌, ◌==◌,
  if◌then◌else◌, length, All, word_bytes, lt→ltb, le→ltb_false, arith,
}
use mscclpp.Memory.{
  Transport, cuda_ipc, ib_transports, ib, kind_of, Memory, Process, has, has_any, add_ibs, register,
  serialize, get_ipc_info, access_of, or_ib, open_data, deserialize,
}
use mscclpp.Memory.Transports.{read_word-append, remote, IsEntry, read_infos-serialize_infos}

-- The number of entries that fit in an `int8_t` is never reached.
length-add_ibs :
    (flags : ℕ) (mr : Transport → List ℕ) (ts : List Transport)
    → length (add_ibs flags mr ts) ≤ length ts
unfolding add_ibs
length-add_ibs flags mr [] = omega arith
length-add_ibs flags mr (t ∷ ts) =
    let rest = length-add_ibs flags mr ts in
    elim (Bool-cases (has flags t)) [ inl e ↦ rw e omega arith | inr e ↦ rw e omega arith ]

-- The transport of an IB device
abbrev IsIb : Transport → Type 0
IsIb t = kind_of t ≡ ib

module _ (handle_size ib_mr_info_size : ℕ) where
  add_ibs-IsEntry :
      (flags : ℕ) (mr : Transport → List ℕ) (ts : List Transport)
      → All IsIb ts
      → ((t : Transport) → length (mr t) ≡ ib_mr_info_size)
      → All (IsEntry handle_size ib_mr_info_size) (add_ibs flags mr ts)
  unfolding add_ibs
  add_ibs-IsEntry flags mr [] ibs sized = tt
  add_ibs-IsEntry flags mr (t ∷ ts) (is_ib, ibs) sized =
      let rest = add_ibs-IsEntry flags mr ts ibs sized in
      elim (Bool-cases (has flags t)) [
        | inl e ↦ rw e (rw is_ib (sized t), rest)
        | inr e ↦ rw e rest
      ]

  register-IsEntry :
      (owner : Process) (ptr size flags : ℕ) (handle : List ℕ) (mr : Transport → List ℕ)
      → length handle ≡ handle_size
      → ((t : Transport) → length (mr t) ≡ ib_mr_info_size)
      → All
          (IsEntry handle_size ib_mr_info_size)
          (register owner ptr size flags handle mr).transport_infos
  unfolding register
  register-IsEntry owner ptr size flags handle mr fits sized =
      let are_ib : All IsIb ib_transports =
        (refl, (refl, (refl, (refl, (refl, (refl, (refl, (refl, tt)))))))) in
      let ibs = add_ibs-IsEntry flags mr ib_transports are_ib sized in
      elim (Bool-cases (has flags cuda_ipc)) [ inl e ↦ rw e (fits, ibs) | inr e ↦ rw e ibs ]

-- At most the IPC entry and eight IB entries
length-register :
    (owner : Process) (ptr size flags : ℕ) (handle : List ℕ) (mr : Transport → List ℕ)
    → length (register owner ptr size flags handle mr).transport_infos ≤ 9
unfolding register
length-register owner ptr size flags handle mr =
    let ibs = length-add_ibs flags mr ib_transports in
    elim (Bool-cases (has flags cuda_ipc)) [
      | inl e ↦ rw e omega (arith, ibs)
      | inr e ↦ rw e omega (arith, ibs)
    ]

-- The bits of `transports`: 1 for CudaIpc, and 2 to 9 for IB
abbrev pub ipc_bit : ℕ → Bool
ipc_bit flags = flags / 2 % 2 == 1

abbrev pub ib_bits : ℕ → Bool
ib_bits flags = not (flags / 4 % 256 == 0)

-- What another process finds after the mapping of the IPC handle, with IB or without
abbrev pub mapped : Bool → Result ℕ → Result (ℕ × Option (ℕ × ℕ))
mapped ib_too (ok data_ptr) = ok (data_ptr, none)
mapped ib_too (err why) = if ib_too then ok (0, none) else err why

-- In the same process, access is set for a handle without the type 1, of runtime IPC, on another device.
abbrev pub access_set : Process → ℕ → List ℕ → Option (ℕ × ℕ)
access_set process ptr handle =
    if process.gpu_of ptr == process.current_device
    then none
    else if bit_and (process.type_flags handle) 1 == 0
    then some (ptr, process.base_size handle)
    else none

abbrev pub found :
    Process
    → Process
    → ℕ
    → Bool
    → Option (ℕ × ℕ)
    → Result (ℕ × Option (ℕ × ℕ))
    → Result (ℕ × Option (ℕ × ℕ))
found process owner ptr ipc access outcome =
    if (process.host_hash == owner.host_hash) && (process.pid_hash == owner.pid_hash)
    then ok (ptr, if ipc then access else none)
    else if ipc
    then outcome
    else ok (0, none)

-- What a process finds at the memory of another, `owner`: the pointer itself in the same process, the
-- mapped IPC handle elsewhere, and no pointer where only IB reaches it.
abbrev pub opened : Process → Process → ℕ → ℕ → List ℕ → Result (ℕ × Option (ℕ × ℕ))
opened process owner ptr flags handle =
    found process owner ptr (ipc_bit flags) (access_set process ptr handle)
      (mapped (ib_bits flags) (process.map_handle handle))

has-ipc_bit : (flags : ℕ) → has flags cuda_ipc ≡ ipc_bit flags
unfolding has
has-ipc_bit flags = refl

has_any-ib_bits : (flags : ℕ) → has_any flags ib_transports ≡ ib_bits flags
unfolding has_any has
has_any-ib_bits flags = ground arith

access_of-access_set :
    (process : Process) (ptr : ℕ) (handle : List ℕ)
    → access_of process ptr handle ≡ access_set process ptr handle
access_of-access_set process ptr handle =
    elim (Bool-cases (process.gpu_of ptr == process.current_device)) [
      | inl e ↦ rw e (elim (Bool-cases (bit_and (process.type_flags handle) 1 == 0)) [
        | inl t ↦ rw t refl
        | inr t ↦ rw t refl
      ])
      | inr e ↦ rw e (elim (Bool-cases (bit_and (process.type_flags handle) 1 == 0)) [
        | inl t ↦ rw t refl
        | inr t ↦ rw t refl
      ])
    ]

or_ib-mapped :
    (has_ib : Bool) (r : Result ℕ)
    → (or_ib has_ib r >>= λ data_ptr. ok (data_ptr, none)) ≡ mapped has_ib r
or_ib-mapped true (ok data_ptr) = refl
or_ib-mapped false (ok data_ptr) = refl
or_ib-mapped true (err why) = refl
or_ib-mapped false (err why) = refl

-- What `deserialize` reads
abbrev remote_memory : Memory → Memory
remote_memory m = record m { data_ptr = 0; transport_infos = map remote m.transport_infos }

open_data-register :
    (process owner : Process) (ptr size flags : ℕ) (handle : List ℕ) (mr : Transport → List ℕ)
    → open_data process (remote_memory (register owner ptr size flags handle mr))
      ≡ opened process owner ptr flags handle
unfolding open_data register get_ipc_info
open_data-register process owner ptr size flags handle mr =
    by_code
    ∙ ap (λ b. found process owner ptr b access outcome) (has-ipc_bit flags)
    ∙ ap (λ a. found process owner ptr (ipc_bit flags) a outcome)
        (access_of-access_set process ptr handle)
    ∙ ap (found process owner ptr (ipc_bit flags) (access_set process ptr handle)) (
        or_ib-mapped (has_any flags ib_transports) (process.map_handle handle)
        ∙ ap (λ b. mapped b (process.map_handle handle)) (has_any-ib_bits flags))
  where
    access : Option (ℕ × ℕ)
    access = access_of process ptr handle

    outcome : Result (ℕ × Option (ℕ × ℕ))
    outcome = or_ib (has_any flags ib_transports) (process.map_handle handle) >>= λ data_ptr.
        ok (data_ptr, none)

    by_code :
        open_data process (remote_memory (register owner ptr size flags handle mr))
        ≡ found process owner ptr (has flags cuda_ipc) access outcome
    by_code = elim (Bool-cases (has flags cuda_ipc)) [ inl e ↦ rw e refl | inr e ↦ rw e refl ]

-- The numbers of a memory and of the process that it belongs to are words of 64 bits.
abbrev IsWords : Memory → Type 0
IsWords m =
    (m.original_data_ptr < 256 ^ 8)
    × (m.size < 256 ^ 8)
    × (m.host_hash < 256 ^ 8)
    × (m.pid_hash < 256 ^ 8)
    × (m.transports < 256 ^ 8)

module _ (handle_size ib_mr_info_size : ℕ) where
  -- What `serialize` returns is read back, for at most 127 entries.
  deserialize-serialize :
      (process : Process) (m : Memory)
      → IsWords m
      → length m.transport_infos ≤ 127
      → All (IsEntry handle_size ib_mr_info_size) m.transport_infos
      → (bytes : List ℕ) × (serialize m ≡ ok bytes)
        × (deserialize handle_size ib_mr_info_size process bytes ≡ (
            open_data process (remote_memory m) >>= λ (data_ptr, access).
            ok (record (remote_memory m) { data_ptr = data_ptr }, access)))
  unfolding serialize deserialize
  deserialize-serialize process m (a, b, c, d, f) few entries =
      let n = length m.transport_infos in
      let (infos, written, back) =
        read_infos-serialize_infos handle_size ib_mr_info_size m.transport_infos entries in
      let five = word_bytes 1 n ++ infos in
      let four = word_bytes 8 m.transports ++ five in
      let three = word_bytes 8 m.pid_hash ++ four in
      let two = word_bytes 8 m.host_hash ++ three in
      let one = word_bytes 8 m.size ++ two in
      let closed = rw (append-nil infos) at (back []) in
      (
        word_bytes 8 m.original_data_ptr ++ one,
        rw (le→ltb_false 127 n few, written) refl,
        rw
            (
              read_word-append 8 m.original_data_ptr one a,
              read_word-append 8 m.size two b,
              read_word-append 8 m.host_hash three c,
              read_word-append 8 m.pid_hash four d,
              read_word-append 8 m.transports five f,
              read_word-append 1 n infos (omega arith),
              lt→ltb n 128 (omega arith),
              closed,
            )
            refl,
      )

  -- A memory that a process `owner` registers is serialised without an error, with any transports, and
  -- a process that deserialises it has its pointer, size, hashes and transports, its entries with the
  -- IB ones not local, and as its data the pointer itself in the same process, what mapping the IPC
  -- handle gives in another one, and no pointer where it has no IPC or where the mapping fails and it
  -- has IB; where it has none, the error of the mapping is thrown. Its words have 64 bits, and the
  -- structures of the entries their sizes.
  pub deserialize-serialize-register :
      (process owner : Process) (ptr size flags : ℕ) (handle : List ℕ) (mr : Transport → List ℕ)
      → let m = register owner ptr size flags handle mr in
        IsWords m
        → length handle ≡ handle_size
        → ((t : Transport) → length (mr t) ≡ ib_mr_info_size)
        → (bytes : List ℕ) × (serialize m ≡ ok bytes)
          × (deserialize handle_size ib_mr_info_size process bytes ≡ (
              opened process owner ptr flags handle >>= λ (data_ptr, access).
              ok (record (remote_memory m) { data_ptr = data_ptr }, access)))
  deserialize-serialize-register process owner ptr size flags handle mr words fits sized =
      let m = register owner ptr size flags handle mr in
      let few = length-register owner ptr size flags handle mr in
      let entries =
        register-IsEntry handle_size ib_mr_info_size owner ptr size flags handle mr fits sized in
      let (bytes, written, back) = deserialize-serialize process m words (omega arith) entries in
      (bytes, written, rw (back, open_data-register process owner ptr size flags handle mr) refl)
