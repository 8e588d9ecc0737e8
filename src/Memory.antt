-- ===== src/Memory.antt =====
-- src/core/registered_memory.cc: a memory registered by one process, serialised, and opened by another.
-- A value is serialised as the bytes of its representation; words are unsigned, pointers too. The
-- structures of CUDA and IB are lists of bytes, and what those libraries do is a parameter.
pub mod Transports
pub mod Opening
mod Tests
use mscclpp.Base.{
  ℕ, zero, suc, ◌+◌, ◌/◌, ◌%◌, ◌^◌, Bool, true, false, not, ◌&&◌, ◌||◌, List, [], ◌∷◌, ◌++◌, Option,
  none, some, Result, ok, err, thrown, internal_error, out_of_range, throw_if, ◌>>=◌, ◌>>◌, ◌==◌,
  ltb, if◌then◌else◌, length, get_elem?, word_bytes, bytes_word, split_bytes, bit_and,
}

-- `enum class Transport`
pub data Transport : Type 0 where
  unknown cuda_ipc ib0 ib1 ib2 ib3 ib4 ib5 ib6 ib7 ethernet : Transport

abbrev pub transport_word : Transport → ℕ
transport_word unknown = 0
transport_word cuda_ipc = 1
transport_word ib0 = 2
transport_word ib1 = 3
transport_word ib2 = 4
transport_word ib3 = 5
transport_word ib4 = 6
transport_word ib5 = 7
transport_word ib6 = 8
transport_word ib7 = 9
transport_word ethernet = 10

abbrev pub ib_transports : List Transport
ib_transports = ib0 ∷ ib1 ∷ ib2 ∷ ib3 ∷ ib4 ∷ ib5 ∷ ib6 ∷ ib7 ∷ []

abbrev all_transports : List Transport
all_transports = unknown ∷ cuda_ipc ∷ ib_transports ++ (ethernet ∷ [])

-- `TransportFlags::has`
unfoldable pub has : ℕ → Transport → Bool
has flags t = (flags / 2 ^ transport_word t) % 2 == 1

-- `(transports & AllIBTransports).any()`
unfoldable pub has_any : ℕ → List Transport → Bool
has_any flags [] = false
has_any flags (t ∷ ts) = has flags t || has_any flags ts

-- How the bytes of an entry are read: `CudaIpc` and `AllIBTransports.has`, in this order
pub data Kind : Type 0 where
  ipc ib neither : Kind

abbrev pub kind_of : Transport → Kind
kind_of unknown = neither
kind_of cuda_ipc = ipc
kind_of ethernet = neither
kind_of _ = ib

-- `TransportInfo`; `payload` is the member of its union that is used, the IPC handle or the IB
-- information. `ibLocal` of an IPC entry is not set, and stands as false.
pub record TransportInfo : Type 0 where
  pub transport : Transport
  pub ib_local : Bool
  pub payload : List ℕ

-- `RegisteredMemory::Impl`, without what frees the memory; `data` 0 is `nullptr`.
pub record Memory : Type 0 where
  pub data_ptr : ℕ
  pub original_data_ptr : ℕ
  pub size : ℕ
  pub host_hash : ℕ
  pub pid_hash : ℕ
  pub transports : ℕ
  pub transport_infos : List TransportInfo

-- What a process finds in its surroundings: its hashes, `GpuIpcMem::create` with `map`, whose errors
-- are `BaseError`s, the fields of an IPC handle, `gpuIdFromAddress` and `cudaGetDevice`
pub record Process : Type 0 where
  pub host_hash : ℕ
  pub pid_hash : ℕ
  pub map_handle : List ℕ → Result ℕ
  pub type_flags : List ℕ → ℕ
  pub base_size : List ℕ → ℕ
  pub gpu_of : ℕ → ℕ
  pub current_device : ℕ

-- `addIb` of each IB transport of the memory
unfoldable pub add_ibs : ℕ → (Transport → List ℕ) → List Transport → List TransportInfo
add_ibs flags mr [] = []
add_ibs flags mr (t ∷ ts) =
    let rest = add_ibs flags mr ts in
    if has flags t then record { transport = t; ib_local = true; payload = mr t } ∷ rest else rest

abbrev pub ipc_infos : ℕ → List ℕ → List TransportInfo
ipc_infos flags handle =
    if has flags cuda_ipc
    then record { transport = cuda_ipc; ib_local = false; payload = handle } ∷ []
    else []

-- The constructor that registers a memory; `handle` is its IPC handle, `mr` its IB information.
unfoldable pub register : Process → ℕ → ℕ → ℕ → List ℕ → (Transport → List ℕ) → Memory
register process data_ptr size flags handle mr = record {
  data_ptr = data_ptr;
  original_data_ptr = data_ptr;
  size = size;
  host_hash = process.host_hash;
  pid_hash = process.pid_hash;
  transports = flags;
  transport_infos = ipc_infos flags handle ++ add_ibs flags mr ib_transports;
}

abbrev pub serialize_payload : Kind → List ℕ → Result (List ℕ)
serialize_payload neither payload = err (thrown internal_error)
serialize_payload _ payload = ok payload

-- The loop of `serialize`
unfoldable pub serialize_infos : List TransportInfo → Result (List ℕ)
serialize_infos [] = ok []
serialize_infos (entry ∷ infos) = do
  payload ← serialize_payload (kind_of entry.transport) entry.payload
  rest ← serialize_infos infos
  ok (word_bytes 4 (transport_word entry.transport) ++ (payload ++ rest))

-- `serialize`
unfoldable pub serialize : Memory → Result (List ℕ)
serialize m = do
  throw_if (ltb 127 (length m.transport_infos)) internal_error
  infos ← serialize_infos m.transport_infos
  ok (
      word_bytes 8 m.original_data_ptr
      ++ (word_bytes 8 m.size
          ++ (word_bytes 8 m.host_hash
              ++ (word_bytes 8 m.pid_hash
                  ++ (word_bytes 8 m.transports
                      ++ (word_bytes 1 (length m.transport_infos) ++ infos))))))

abbrev pub or_fault : {A : Type 0} → Option A → Result A
or_fault none = err out_of_range
or_fault (some a) = ok a

-- `detail::deserialize` of a value of `k` bytes; to read past the end is a fault.
abbrev pub read_bytes : ℕ → List ℕ → Result (List ℕ × List ℕ)
read_bytes k bytes = or_fault (split_bytes k bytes)

unfoldable pub read_word : ℕ → List ℕ → Result (ℕ × List ℕ)
read_word k bytes = read_bytes k bytes >>= λ (word, rest). ok (bytes_word word, rest)

-- A `Transport` from its number; `AllIBTransports.has` throws `std::out_of_range` for any other.
abbrev pub read_transport : ℕ → Result Transport
read_transport word = or_fault (get_elem? all_transports word)

-- The number of iterations of a loop up to an `int8_t`, which may be negative
abbrev int8_count : ℕ → ℕ
int8_count byte = if ltb byte 128 then byte else 0

module _ (handle_size ib_mr_info_size : ℕ) where
  abbrev pub payload_size : Kind → Result ℕ
  payload_size ipc = ok handle_size
  payload_size ib = ok ib_mr_info_size
  payload_size neither = err (thrown internal_error)

  -- The loop over the entries
  unfoldable pub read_infos : ℕ → List ℕ → Result (List TransportInfo × List ℕ)
  read_infos zero bytes = ok ([], bytes)
  read_infos (suc k) bytes = do
    (word, bytes) ← read_word 4 bytes
    t ← read_transport word
    size ← payload_size (kind_of t)
    (payload, bytes) ← read_bytes size bytes
    (infos, bytes) ← read_infos k bytes
    ok (record { transport = t; ib_local = false; payload = payload } ∷ infos, bytes)

-- `getTransportInfo(Transport::CudaIpc)`
unfoldable pub get_ipc_info : List TransportInfo → Result (List ℕ)
get_ipc_info [] = err (thrown internal_error)
get_ipc_info (entry ∷ infos) =
    let later = get_ipc_info infos in
    if transport_word entry.transport == 1 then ok entry.payload else later

-- The call of `setReadWriteMemoryAccess`, if there is one: the address and the size
abbrev pub access_of : Process → ℕ → List ℕ → Option (ℕ × ℕ)
access_of process data_ptr handle =
    if bit_and (process.type_flags handle) 1 == 0
      && not (process.gpu_of data_ptr == process.current_device)
    then some (data_ptr, process.base_size handle)
    else none

-- `catch (const BaseError& e)`: an error of the import is thrown again where there is no IB.
abbrev pub or_ib : Bool → Result ℕ → Result ℕ
or_ib has_ib (ok data_ptr) = ok data_ptr
or_ib true (err why) = ok 0
or_ib false (err why) = err why

-- How `data` is set, and the call of `setReadWriteMemoryAccess`
unfoldable pub open_data : Process → Memory → Result (ℕ × Option (ℕ × ℕ))
open_data process m =
    if (process.host_hash == m.host_hash) && (process.pid_hash == m.pid_hash)
    then (if has m.transports cuda_ipc
        then (get_ipc_info m.transport_infos >>= λ handle.
            ok (m.original_data_ptr, access_of process m.original_data_ptr handle))
        else ok (m.original_data_ptr, none))
    else if has m.transports cuda_ipc
    then (get_ipc_info m.transport_infos >>= λ handle.
        or_ib (has_any m.transports ib_transports) (process.map_handle handle) >>= λ data_ptr.
        ok (data_ptr, none))
    else ok (0, none)

abbrev is_empty : List ℕ → Bool
is_empty [] = true
is_empty (b ∷ bs) = false

-- `deserialize`, with the constructor that it calls, which leaves `data` for the end
unfoldable pub deserialize : ℕ → ℕ → Process → List ℕ → Result (Memory × Option (ℕ × ℕ))
deserialize handle_size ib_mr_info_size process bytes = do
  (original_data_ptr, bytes) ← read_word 8 bytes
  (size, bytes) ← read_word 8 bytes
  (host_hash, bytes) ← read_word 8 bytes
  (pid_hash, bytes) ← read_word 8 bytes
  (transports, bytes) ← read_word 8 bytes
  (count, bytes) ← read_word 1 bytes
  (infos, bytes) ← read_infos handle_size ib_mr_info_size (int8_count count) bytes
  throw_if (not (is_empty bytes)) internal_error
  let m : Memory = record {
    data_ptr = 0;
    original_data_ptr = original_data_ptr;
    size = size;
    host_hash = host_hash;
    pid_hash = pid_hash;
    transports = transports;
    transport_infos = infos;
  }
  (data_ptr, access) ← open_data process m
  ok (record m { data_ptr = data_ptr }, access)
