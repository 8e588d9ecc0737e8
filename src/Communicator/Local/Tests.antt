-- ===== src/Communicator/Local/Tests.antt =====
-- src/core/communicator.cc: memories that a rank sends to itself, at concrete inputs.
use mscclpp.Base.{ℕ, ◌≡◌, ◌≢◌, refl, List, [], ◌∷◌, none, some, map, length}
use mscclpp.Communicator.Local.{LocalMemories, send_memory, recv_memory}
use mscclpp.Communicator.Local.Queue.{send_all, recv_all, recv_all-send_all, recv_memory_twice}

abbrev fresh : LocalMemories ℕ
fresh = record { value = λ i. none; made = 0; loc_recv_mem_list = [] }

abbrev sent : List ℕ
sent = 7 ∷ 8 ∷ []

recv_all-send_all_example : recv_all (length sent) (send_all sent fresh) ≡ map some sent
recv_all-send_all_example = recv_all-send_all fresh sent refl

recv_memory_twice_example :
    let (i, s1) = recv_memory fresh in
    let (j, s2) = recv_memory (send_memory 7 s1) in
    let (k, s3) = recv_memory (send_memory 8 s2) in
    (j ≡ i) × (s3.value i ≡ some 7) × (k ≢ i) × (s3.value k ≡ some 8)
recv_memory_twice_example = recv_memory_twice fresh 7 8 refl
