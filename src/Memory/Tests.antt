-- ===== src/Memory/Tests.antt =====
-- src/core/registered_memory.cc: memories at concrete inputs.
use mscclpp.Base.{
  ℕ, ◌≡◌, refl, List, [], ◌∷◌, ◌++◌, false, none, some, Result, ok, err, thrown, internal_error,
  system_error, word_bytes, bytes_word, split_bytes, arith,
}
use mscclpp.Memory.{
  cuda_ipc, ib0, Memory, Process, has, has_any, add_ibs, register, serialize_infos, serialize,
  read_word, read_infos, get_ipc_info, open_data, deserialize,
}
use mscclpp.Memory.Opening.{deserialize-serialize-register}

abbrev process_of : ℕ → Result ℕ → Process
process_of pid mapped = record {
  host_hash = 1;
  pid_hash = pid;
  map_handle = λ handle. mapped;
  type_flags = λ handle. 2;
  base_size = λ handle. 64;
  gpu_of = λ data_ptr. 0;
  current_device = 1;
}

-- IPC and the first IB device
abbrev registered : Memory
registered = register (process_of 5 (ok 0)) 4096 64 6 (7 ∷ 8 ∷ []) (λ t. 9 ∷ [])

abbrev sent : List ℕ
sent =
    word_bytes 8 4096
    ++ word_bytes 8 64
    ++ word_bytes 8 1
    ++ word_bytes 8 5
    ++ word_bytes 8 6
    ++ (2 ∷ 1 ∷ 0 ∷ 0 ∷ 0 ∷ 7 ∷ 8 ∷ 2 ∷ 0 ∷ 0 ∷ 0 ∷ 9 ∷ [])

abbrev received : ℕ → Memory
received data_ptr = record registered {
  data_ptr = data_ptr;
  transport_infos =
      record { transport = cuda_ipc; ib_local = false; payload = 7 ∷ 8 ∷ [] }
      ∷ record { transport = ib0; ib_local = false; payload = 9 ∷ [] }
      ∷ [];
}

serialize_test : serialize registered ≡ ok sent
unfolding serialize serialize_infos register add_ibs has word_bytes
serialize_test = refl

-- The same process, on another device
deserialize_same : deserialize 2 1 (process_of 5 (ok 0)) sent ≡ ok (received 4096, some (4096, 64))
unfolding deserialize read_word read_infos open_data get_ipc_info register add_ibs has split_bytes
    bytes_word word_bytes
deserialize_same = refl

-- Another process that cannot map the handle, and has IB
deserialize_ib :
    deserialize 2 1 (process_of 6 (err (thrown system_error))) sent ≡ ok (received 0, none)
unfolding deserialize read_word read_infos open_data get_ipc_info register add_ibs has has_any
    split_bytes bytes_word word_bytes
deserialize_ib = refl

-- A byte too many is an error.
deserialize_long :
    deserialize 2 1 (process_of 6 (ok 0)) (sent ++ (0 ∷ [])) ≡ err (thrown internal_error)
unfolding deserialize read_word read_infos split_bytes bytes_word word_bytes
deserialize_long = refl

deserialize-serialize-register_example :
    (bytes : List ℕ) × (serialize registered ≡ ok bytes)
    × (deserialize 2 1 (process_of 6 (ok 8192)) bytes ≡ ok (received 8192, none))
unfolding register add_ibs has
deserialize-serialize-register_example =
    deserialize-serialize-register 2 1 (process_of 6 (ok 8192)) (process_of 5 (ok 0)) 4096 64 6
      (7 ∷ 8 ∷ []) (λ t. 9 ∷ []) (omega arith, omega arith, omega arith, omega arith, omega arith)
      refl (λ t. refl)
