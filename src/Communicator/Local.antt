-- ===== src/Communicator/Local.antt =====
-- src/core/communicator.cc: `sendMemory` and `recvMemory` where the remote rank is the rank itself, for
-- one tag. A `LocalRecvMemory` is known by how many were made before it; its future is shared with
-- those that `reference` gave it to.
pub mod Queue
mod Tests
use mscclpp.Base.{ℕ, ◌+◌, ◌≡◌, Bool, List, [], ◌∷◌, ◌++◌, Option, none, some, update}

-- The promises with their values, and `localRecvMemories_[tag]`
pub record LocalMemories (M : Type 0) : Type 0 where
  pub value : ℕ → Option M
  pub made : ℕ
  pub loc_recv_mem_list : List ℕ

abbrev pub keep_before : ℕ → Option (ℕ × List ℕ) → Option (ℕ × List ℕ)
keep_before i none = none
keep_before i (some (j, rest)) = some (j, i ∷ rest)

module _ {M : Type 0} where
  abbrev pub unready_or : Option M → ℕ → Option ℕ → Option ℕ
  unready_or none i later = some i
  unready_or (some m) i later = later

  abbrev pub ready_or : Option M → ℕ × List ℕ → Option (ℕ × List ℕ) → Option (ℕ × List ℕ)
  ready_or none found later = later
  ready_or (some m) found later = some found

  -- The loop of `sendMemory`: the first memory that is not ready
  abbrev pub first_unready : (ℕ → Option M) → List ℕ → Option ℕ
  first_unready value [] = none
  first_unready value (i ∷ is) = let later = first_unready value is in unready_or (value i) i later

  abbrev pub set_or_add : M → LocalMemories M → Option ℕ → LocalMemories M
  set_or_add m s (some i) = record s { value = update s.value i (some m) }
  set_or_add m s none = record s {
    value = update s.value s.made (some m);
    made = s.made + 1;
    loc_recv_mem_list = s.loc_recv_mem_list ++ (s.made ∷ []);
  }

  -- `sendMemory`
  unfoldable pub send_memory : M → LocalMemories M → LocalMemories M
  send_memory m s = set_or_add m s (first_unready s.value s.loc_recv_mem_list)

  -- The loop of `recvMemory`: the first memory that is ready, and the list without it
  abbrev pub first_ready : (ℕ → Option M) → List ℕ → Option (ℕ × List ℕ)
  first_ready value [] = none
  first_ready value (i ∷ is) =
      let later = keep_before i (first_ready value is) in ready_or (value i) (i, is) later

  abbrev pub take_or_add : LocalMemories M → Option (ℕ × List ℕ) → ℕ × LocalMemories M
  take_or_add s (some (i, rest)) = (i, record s { loc_recv_mem_list = rest })
  take_or_add s none = (
    s.made,
    record s {
      value = update s.value s.made none;
      made = s.made + 1;
      loc_recv_mem_list = s.loc_recv_mem_list ++ (s.made ∷ []);
    },
  )

  -- `recvMemory`, with the number of the future that it returns
  unfoldable pub recv_memory : LocalMemories M → ℕ × LocalMemories M
  recv_memory s = take_or_add s (first_ready s.value s.loc_recv_mem_list)
